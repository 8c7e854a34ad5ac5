-- ===== src/Connection/Safe.antt =====
-- Between its operations a connection waits for just one of them, or has been closed and given back once.
use cppsp_ng.Base.{ℕ, ◌+◌, ◌-◌, ◌≤◌, ◌<◌, ◌≡◌, refl, Bool, true, false, arith}
use cppsp_ng.Http.Valid.{IsValid}
use cppsp_ng.Response.Defs.{initial_space}
use cppsp_ng.Connection.Defs.{Connection}

abbrev pub closed : Bool → ℕ
closed true = 0
closed false = 1

-- The one thing is a receive, a write, the call of a handler, or that the connection is closed, in which case it
-- is in the pool, and there once. A receive is under way only with room for the data, and a handler runs only with the free
-- space in front of the headers, which a new connection does not have.
pub record Safe {ℓ} {Fn : Type ℓ} (s : Connection Fn) : Type ℓ where
  pub one : s.reads + s.writes + s.calls + closed s.is_open ≡ 1
  pub pooled_eq : s.pooled ≡ closed s.is_open
  pub parser_valid : IsValid s.parser
  pub room : 1 ≤ s.reads → s.parser.end < s.parser.size
  pub headers_le : 1 ≤ s.calls → initial_space ≤ s.response.headers_len

-- In a callback nothing is under way.
pub record Free {ℓ} {Fn : Type ℓ} (s : Connection Fn) : Type ℓ where
  pub no_reads : s.reads ≡ 0
  pub no_writes : s.writes ≡ 0
  pub no_calls : s.calls ≡ 0
  pub opened : s.is_open ≡ true
  pub not_pooled : s.pooled ≡ 0
  pub parser_free : IsValid s.parser

-- One write is under way, and nothing else.
abbrev pub WaitsForWrite {ℓ} : {Fn : Type ℓ} → Connection Fn → Type 0
WaitsForWrite t = (t.is_open ≡ true) × (t.reads ≡ 0) × (t.writes ≡ 1) × (t.calls ≡ 0)

module _ {ℓ} {Fn : Type ℓ} {s : Connection Fn} (v : Safe s) where
  open_of : s.reads + s.writes + s.calls ≡ 1 → s.is_open ≡ true
  open_of h = go s.is_open v.one
    where
      go : (b : Bool) → s.reads + s.writes + s.calls + closed b ≡ 1 → b ≡ true
      go true e = refl
      go false e = absurd (omega arith)

  pooled_of : s.reads + s.writes + s.calls ≡ 1 → s.pooled ≡ 0
  pooled_of h = omega (arith, v.pooled_eq, v.one)

  -- The end of an operation.
  pub read_ends : 1 ≤ s.reads → Free (record s { reads = s.reads - 1 })
  read_ends h =
      let all : s.reads + s.writes + s.calls ≡ 1 = omega (arith, v.one) in
      record {
        no_reads = omega arith;
        no_writes = omega arith;
        no_calls = omega arith;
        opened = open_of all;
        not_pooled = pooled_of all;
        parser_free = v.parser_valid;
      }

  pub write_ends : 1 ≤ s.writes → Free (record s { writes = s.writes - 1 })
  write_ends h =
      let all : s.reads + s.writes + s.calls ≡ 1 = omega (arith, v.one) in
      record {
        no_reads = omega arith;
        no_writes = omega arith;
        no_calls = omega arith;
        opened = open_of all;
        not_pooled = pooled_of all;
        parser_free = v.parser_valid;
      }

  pub call_ends : 1 ≤ s.calls → Free (record s { calls = s.calls - 1 })
  call_ends h =
      let all : s.reads + s.writes + s.calls ≡ 1 = omega (arith, v.one) in
      record {
        no_reads = omega arith;
        no_writes = omega arith;
        no_calls = omega arith;
        opened = open_of all;
        not_pooled = pooled_of all;
        parser_free = v.parser_valid;
      }
