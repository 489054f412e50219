-- ===== src/Mesh/Csv.antt =====
-- common/Util.h: `parseCsvFlag`, the lists that command-line flags hold.
use fbmeshd.Prelude.{ℕ, ◌≡◌, false, List, [], ◌∷◌, ◌++◌, ◌==◌, if◌then◌else◌, All}
use fbmeshd.Mesh.{Bytes, Result, ok, ◌>>=◌}

abbrev pub add_to_first : ℕ → List Bytes → List Bytes
add_to_first c [] = (c ∷ []) ∷ []
add_to_first c (s ∷ r) = (c ∷ s) ∷ r

-- What the calls of `getline` read: a text that ends with a comma has an empty last line.
unfoldable pub lines : Bytes → List Bytes
lines [] = [] ∷ []
lines (c ∷ s) = let rest = lines s in if c == b',' then [] ∷ rest else add_to_first c rest

unfoldable pub process_all : {T : Type 0} → (Bytes → Result T) → List Bytes → Result (List T)
process_all process [] = ok []
process_all process (s ∷ r) = do
  t ← process s
  let rest = process_all process r
  ts ← rest
  ok (t ∷ ts)

unfoldable pub parse_csv_flag : {T : Type 0} → (Bytes → Result T) → Bytes → Result (List T)
unfolding lines process_all
parse_csv_flag process [] = ok []
parse_csv_flag process (c ∷ s) = process_all process (lines (c ∷ s))

-- The text with commas between the parts.
abbrev pub join : Bytes → List Bytes → Bytes
join s [] = s
join s (t ∷ r) = s ++ b',' ∷ join t r

abbrev pub IsPlain : Bytes → Type 0
IsPlain s = All (λ c. (c == b',') ≡ false) s
