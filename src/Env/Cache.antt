-- ===== src/Env/Cache.antt =====
-- A setting keeps the value that it had when it was first read: `fetch_string` of src/env.hpp.
use apiserver_asymetric_encr.Base.{
  Option-cases, ◌≡◌, refl, sym, subst, inl, inr, Option, some, List, [], ◌∷◌, arith,
}
use apiserver_asymetric_encr.Text.{Bytes}
use apiserver_asymetric_encr.Env.{Settings, find_cached, resolve, fetch_string}
use apiserver_asymetric_encr.Text.Search.{same_iff}

-- A call finds the environment and the files as they are at its time.
pub record Fetch : Type 0 where
  pub key : Bytes
  pub getenv : Bytes → Option Bytes
  pub decrypt : Bytes → Option Bytes

abbrev pub fetch : Fetch → Settings → Settings
fetch f cache = (fetch_string f.getenv f.decrypt f.key cache).0

abbrev pub fetches : List Fetch → Settings → Settings
fetches [] cache = cache
fetches (f ∷ fs) cache = fetches fs (fetch f cache)

fetch_keeps :
    (f : Fetch) (key v : Bytes) (cache : Settings)
    → find_cached key cache ≡ some v
    → find_cached key (fetch f cache) ≡ some v
unfolding fetch_string find_cached
fetch_keeps f key v cache h = ground (arith, same_iff f.key key)

fetches_keep :
    (fs : List Fetch) (key v : Bytes) (cache : Settings)
    → find_cached key cache ≡ some v
    → find_cached key (fetches fs cache) ≡ some v
fetches_keep [] key v cache h = h
fetches_keep (f ∷ fs) key v cache h =
    fetches_keep fs key v (fetch f cache) (fetch_keeps f key v cache h)

fetched_is_cached :
    (f : Fetch) (v : Bytes) (cache : Settings)
    → (fetch_string f.getenv f.decrypt f.key cache).1 ≡ some v
    → find_cached f.key (fetch f cache) ≡ some v
unfolding fetch_string find_cached
fetched_is_cached f v cache h = elim (Option-cases (find_cached f.key cache)) [
  | inr (w, e) ↦ ground arith
  | inl e ↦ elim (Option-cases (resolve f.getenv f.decrypt f.key)) [
    | inl g ↦ absurd (ground arith)
    | inr (w, g) ↦ ground (arith, same_iff f.key f.key)
  ]
]

-- A setting that has once been read gives the same value at every later read on the thread,
-- whatever else is read in between, and however the environment and the encrypted files change.
pub fetch_string_stable :
    (f g : Fetch) (fs : List Fetch) (v : Bytes) (cache : Settings)
    → g.key ≡ f.key
    → (fetch_string f.getenv f.decrypt f.key cache).1 ≡ some v
    → let later = fetches fs (fetch f cache) in
      fetch_string g.getenv g.decrypt g.key later ≡ (later, some v)
unfolding fetch_string
fetch_string_stable f g fs v cache k h =
    let later = fetches fs (fetch f cache) in
    let found : find_cached g.key later ≡ some v =
      subst (λ j. find_cached j later ≡ some v) (sym k)
        (fetches_keep fs f.key v (fetch f cache) (fetched_is_cached f v cache h)) in
    rw (found, fetch_string) refl
