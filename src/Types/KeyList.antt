-- ===== src/Types/KeyList.antt =====
-- The list of signing keys that `Config::from_env` (src/relayer/src/types.rs) reads.
use Prim.Native.Char.{Char, code}
use Prim.Native.String.append
use nautilus_memwal_relayer.Prelude.{
  ◌≡◌, refl, ap, String, ◌<>◌, Bool, true, false, List, [], ◌∷◌, All, str_eq, nat_eq, trim,
  trim-nil, if◌then◌else◌, arith,
}
use nautilus_memwal_relayer.Prelude.Numbers.{split_commas}
use nautilus_memwal_relayer.Types.Settings.{parse_keys}

unfoldable pub has_comma : String → Bool
has_comma String.[] = false
has_comma (String.◌∷◌ c s) = let rest = has_comma s in if nat_eq (code c) b',' then true else rest

-- A key as it is written into the variable: not blank, without blanks at its ends or commas
abbrev pub IsKey : String → Type 0
IsKey k = (has_comma k ≡ false) × (trim k ≡ k) × (str_eq k "" ≡ false)

-- The keys with commas between them
unfoldable pub join_commas : List String → String
join_commas [] = ""
join_commas (k ∷ []) = k
join_commas (k ∷ l ∷ rest) = k <> ("," <> join_commas (l ∷ rest))

comma-cases :
    (c : Char) (s : String)
    → has_comma (String.◌∷◌ c s) ≡ false
    → (nat_eq (code c) b',' ≡ false) × (has_comma s ≡ false)
unfolding has_comma
comma-cases c s h = ground arith

split_one : (k : String) → has_comma k ≡ false → split_commas k ≡ k ∷ []
unfolding split_commas
split_one String.[] h = refl
split_one (String.◌∷◌ c s) h =
    let (other, rest) = comma-cases c s h in rw (other, split_one s rest) refl

split_more :
    (k rest : String)
    → has_comma k ≡ false
    → split_commas (k <> ("," <> rest)) ≡ k ∷ split_commas rest
unfolding split_commas
split_more String.[] rest h =
    rw (append.nil ("," <> rest)) (rw (append.cons "," "" rest, append.nil rest) refl)
split_more (String.◌∷◌ c s) rest h =
    let (other, below) = comma-cases c s h in
    rw (append.cons c s ("," <> rest), other, split_more s rest below) refl

-- Keys that were written into `SERVER_SUI_PRIVATE_KEYS` with commas between them are read back, in
-- their order.
pub parse_keys-join_commas :
    (keys : List String) → All IsKey keys → parse_keys (join_commas keys) ≡ keys
unfolding parse_keys join_commas split_commas
parse_keys-join_commas [] h = rw trim-nil refl
parse_keys-join_commas (k ∷ []) h = rw (split_one k h.0.0, h.0.1, h.0.2) refl
parse_keys-join_commas (k ∷ l ∷ rest) h =
    rw (split_more k (join_commas (l ∷ rest)) h.0.0, h.0.1, h.0.2)
      (ap (◌∷◌ k) (parse_keys-join_commas (l ∷ rest) h.1))
