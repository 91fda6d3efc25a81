-- ===== src/Local/Listing.antt =====
-- How the provider lists a directory of its system.
use webfuse.Base.{
  ℕ, zero, suc, ◌≤◌, ◌<◌, ◌≡◌, refl, ap, ◌∙◌, List, [], ◌∷◌, ◌++◌, append_assoc, append-nil, Option,
  none, some, length, arith,
}
use webfuse.Base.Int.{pos}
use webfuse.Message.Bytes.{Bytes}
use webfuse.Local
use webfuse.Local.{full_path, read_entries}
use webfuse.Local.Calls.{Posix}

-- The names that `readdir` gives one by one, before it has no more.
pub data IsListing {W : Type 0} (sys : Posix W) (directory : ℕ) : W → List Bytes → W → Type 0 where
  ended : {w w' : W} → sys.readdir directory w ≡ (none, w') → IsListing sys directory w [] w'
  entry :
      {w w1 w' : W} {name : Bytes} {names : List Bytes}
      → sys.readdir directory w ≡ (some name, w1)
      → IsListing sys directory w1 names w'
      → IsListing sys directory w (name ∷ names) w'

module _ {W : Type 0} (sys : Posix W) (base_path token : Bytes) where
  read_entries-IsListing :
      (fuel directory : ℕ) (entries names : List Bytes) (w w' : W)
      → IsListing sys directory w names w'
      → length names < fuel
      → read_entries sys base_path token fuel directory entries w ≡ (entries ++ names, w')
  unfolding read_entries
  read_entries-IsListing zero directory entries names w w' listing enough =
      absurd (omega (arith, enough))
  read_entries-IsListing (suc fuel) directory entries [] w w' (ended e) enough =
      let e0 : (sys.readdir directory w).0 ≡ none = ap (λ (o : Option Bytes × W). o.0) e in
      let e1 : (sys.readdir directory w).1 ≡ w' = ap (λ (o : Option Bytes × W). o.1) e in
      rw (e0, read_entries, append-nil entries, e1) refl
  read_entries-IsListing (suc fuel) directory entries (name ∷ names) w w' (entry {w1 = w1} e rest)
        enough =
      let e0 : (sys.readdir directory w).0 ≡ some name = ap (λ (o : Option Bytes × W). o.0) e in
      let e1 : (sys.readdir directory w).1 ≡ w1 = ap (λ (o : Option Bytes × W). o.1) e in
      rw (e0, read_entries, e1)
        (read_entries-IsListing fuel directory (entries ++ name ∷ []) names w1 w' rest
            (omega (arith, enough))
          ∙ rw (append_assoc entries (name ∷ []) names) refl)

  -- If the directory opens, and the system gives names one by one until it has no more, at most
  -- as many as the fuel of the loop, then the provider's `readdir` appends all of them to the
  -- entries in their order, `.` and `..` with them where the system gives them, closes the
  -- directory after the last, and its result is 0.
  pub readdir-IsListing :
      (path : Bytes) (directory : ℕ) (entries names : List Bytes) (w w1 w2 : W)
      → sys.opendir (full_path sys base_path token path) w ≡ (some directory, w1)
      → IsListing sys directory w1 names w2
      → length names ≤ sys.readdir_fuel directory w1
      → Local.readdir sys base_path token path entries w
        ≡ (pos 0, entries ++ names, sys.closedir directory w2)
  unfolding Local.readdir
  readdir-IsListing path directory entries names w w1 w2 e listing enough =
      let opened = sys.opendir (full_path sys base_path token path) w in
      let e0 : opened.0 ≡ some directory = ap (λ (o : Option ℕ × W). o.0) e in
      let e1 : opened.1 ≡ w1 = ap (λ (o : Option ℕ × W). o.1) e in
      rw (e0, Local.readdir, e1)
        (rw
          (read_entries-IsListing (suc (sys.readdir_fuel directory w1)) directory entries names w1
            w2 listing (omega (arith, enough)))
          refl)
