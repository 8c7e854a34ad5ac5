-- ===== src/Static/Release.antt =====
-- The end of a `FileRef` on a valid manager.
use cppsp_ng.Base.{
  ℕ, ◌-◌, ◌≤◌, ◌<◌, ◌≡◌, ◌≢◌, refl, ap, false, not, ◌&&◌, Bool-cases, inl, inr, Option, none, List,
  ◌==◌, arith,
}
use cppsp_ng.Static.Defs.{LoadedStaticFile, loaded, StaticFileManager}
use cppsp_ng.Static.Files.{assign_cache, delete, set_file, unref, remove_file}
use cppsp_ng.Static.Links.{has}
use cppsp_ng.Static.Valid.{Sound, Valid, loaded-held}
use cppsp_ng.Static.Forget.{forget, forget-Valid}
use cppsp_ng.Static.Load.{at_other, set_file-Sound, eq_of}
use cppsp_ng.Static.Reload.{Referenced}

-- The write to the references at the end of one.
abbrev released : ℕ → StaticFileManager → StaticFileManager
released a s = set_file a (record (s.files a) { ref_count = (s.files a).ref_count - 1 }) s

module _ (s : StaticFileManager) (xs : List ℕ) (a : ℕ) (v : Valid s xs) (r : Referenced s a) where
  released-Sound : Sound (released a s) xs
  released-Sound =
      set_file-Sound s a (record (s.files a) { ref_count = (s.files a).ref_count - 1 }) xs
        (record { prev_eq = refl; next_eq = refl }) refl refl v.sound

  released-lt : a < (released a s).fresh
  unfolding set_file
  released-lt = r.lt

  released-live : (released a s).freed a ≡ false
  unfolding set_file
  released-live = r.live

  released-loaded : loaded ((released a s).files a) ≡ has a xs
  released-loaded =
      loaded-held ((released a s).files a) (has a xs) (released-Sound.held_eq a released-lt)

  -- The other files are used as before.
  released-used :
      (x : ℕ)
      → x < (released a s).fresh
      → (released a s).freed x ≡ false
      → has x xs ≡ false
      → x ≢ a
      → 1 ≤ ((released a s).files x).ref_count
  unfolding set_file
  released-used x b f o ne =
      let e =
        at_other s a (record (s.files a) { ref_count = (s.files a).ref_count - 1 }) x
          (ground arith) in
      omega (arith, ap (λ (h : LoadedStaticFile). h.ref_count) e, v.used x b f o)

  remove_file-forget :
      remove_file ((released a s).files a).path (released a s) ≡ forget a (released a s)
  unfolding remove_file delete
  remove_file-forget =
      let t = released a s in
      ap
        (λ (o : Option ℕ). record t {
          freed = delete o t.freed;
          cache = assign_cache (t.files a).path none t.cache;
        })
        (released-Sound.in_cache a released-lt released-live)

  -- The end of a reference: a file without references that is not loaded leaves the map and is deleted.
  pub unref_lem : Valid (unref a s) xs
  unfolding unref
  unref_lem =
      let t = released a s in
      elim (Bool-cases ((t.files a).ref_count == 0 && not (loaded (t.files a)))) [
        | inl idle ↦
            let out : has a xs ≡ false = ground (arith, released-loaded) in
            rw (idle, remove_file-forget)
              (forget-Valid t xs a released-Sound released-lt released-live out released-used)
        | inr busy ↦ rw busy (record {
          sound = released-Sound;
          used = λ x b f o. elim (Bool-cases (x == a)) [
            | inl u ↦ let e = eq_of x a u in ground (arith, e, released-loaded)
            | inr u ↦ released-used x b f o (ground arith)
          ];
        })
      ]
