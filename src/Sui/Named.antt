-- ===== src/Sui/Named.antt =====
-- What a response of the Sui node says that src/relayer/src/sui.rs takes a key's owner from.
use mathlib.Core.Path.{subst}
use mathlib.Core.List.{Memᴰ}
use nautilus_memwal_relayer.Prelude.{
  ◌≡◌, refl, sym, ap, ◌∙◌, String, Bool, true, false, Option, none, some, unwrap_or, List, [], ◌∷◌,
  map, any, Result, ok, err, ok_or, and_then, if◌then◌else◌, nat_eq, nat_eq_iff, inl, inr,
  Bool-cases, Option-cases, arith,
}
use nautilus_memwal_relayer.Types.{Bytes}
use nautilus_memwal_relayer.Sui.Json.{
  Json, null, boolean, number, other_number, string, array, object, Fields, Items, get, get_field,
  as_str, as_array, to_list, is_bytes,
}
use nautilus_memwal_relayer.Sui.Verify.{
  OnchainVerifyError, holds_key, stored_key, as_array?, as_str?, owner_of, read_response,
  content_of,
}
use nautilus_memwal_relayer.World.Env.{
  RpcReply, not_sent, not_parsed, parsed, RpcResponse, RpcResult, ObjectContent,
}

-- An entry of `delegate_keys` that holds the key: under `public_key`, of its `fields` if it has them
-- or else of itself, stands the array of the key's bytes.
abbrev pub Holds : Bytes → Json → Type 0
Holds public_key entry =
    (stored : Items) × (get "public_key" (unwrap_or (get "fields" entry) entry)
      ≡ some (array stored))
    × (to_list stored ≡ map number public_key)

-- A reply without an error, whose object has an `owner` and an array `delegate_keys` with an entry
-- that holds the key.
abbrev pub Names : Bytes → String → RpcReply RpcResponse → Type 0
Names public_key owner reply =
    (response : RpcResponse) × (fields : Fields) × (keys : Items) × (entry : Json) × (reply
      ≡ parsed response)
    × (response.error ≡ none)
    × (response.result
        ≡ some (record {
          object_data = some (record { content = some (record { fields = some fields }) });
        }))
    × (get_field "owner" fields ≡ some (string owner))
    × (get_field "delegate_keys" fields ≡ some (array keys))
    × Memᴰ entry (to_list keys)
    × Holds public_key entry

and_then-eq-ok :
    {E A B : Type 0} (r : Result {0, 0} E A) (f : A → Result {0, 0} E B) {b : B}
    → and_then r f ≡ ok b
    → (a : A) × (r ≡ ok a) × (f a ≡ ok b)
and_then-eq-ok (ok a) f h = (a, refl, h)
and_then-eq-ok (err e) f h = cc

ok_or-eq-ok : {E A : Type 0} (o : Option A) (e : E) {a : A} → ok_or o e ≡ ok a → o ≡ some a
ok_or-eq-ok none e h = cc
ok_or-eq-ok (some a) e h = cc

is_bytes-numbers :
    (public_key : Bytes) (stored : List Json)
    → is_bytes public_key stored ≡ true
    → stored ≡ map number public_key
unfolding is_bytes
is_bytes-numbers [] [] h = refl
is_bytes-numbers [] (v ∷ vs) h = cc
is_bytes-numbers (b ∷ bs) [] h = cc
is_bytes-numbers (b ∷ bs) (number n ∷ vs) h = elim (Bool-cases (nat_eq n b)) [
  | inl same ↦
      let rest = is_bytes-numbers bs vs (rw same at h) in
      let e : n ≡ b = (nat_eq_iff n b).0 same in
      ap (λ m. number m ∷ vs) e ∙ ap (◌∷◌ (number b)) rest
  | inr other ↦ (let clash : ⊥ = cc (rw other at h) in absurd clash)
]
is_bytes-numbers (b ∷ bs) (null ∷ vs) h = cc
is_bytes-numbers (b ∷ bs) (boolean x ∷ vs) h = cc
is_bytes-numbers (b ∷ bs) (other_number x ∷ vs) h = cc
is_bytes-numbers (b ∷ bs) (string x ∷ vs) h = cc
is_bytes-numbers (b ∷ bs) (array x ∷ vs) h = cc
is_bytes-numbers (b ∷ bs) (object x ∷ vs) h = cc

any-Mem :
    {A : Type 0} (p : A → Bool) (xs : List A) → any p xs ≡ true → (x : A) × Memᴰ x xs × (p x ≡ true)
any-Mem p [] h = cc
any-Mem p (x ∷ xs) h = elim (Bool-cases (p x)) [
  | inl here ↦ (x, Memᴰ.head refl, here)
  | inr other ↦ let (y, m, q) = any-Mem p xs (rw other at h) in (y, Memᴰ.tail m, q)
]

as_array-some :
    (v : Json) (vs : List Json)
    → as_array v ≡ some vs
    → (items : Items) × (v ≡ array items) × (to_list items ≡ vs)
unfolding as_array
as_array-some (array items) vs h = (items, refl, cc)
as_array-some null vs h = cc
as_array-some (boolean x) vs h = cc
as_array-some (number x) vs h = cc
as_array-some (other_number x) vs h = cc
as_array-some (string x) vs h = cc
as_array-some (object x) vs h = cc

as_array?-some :
    (o : Option Json) (vs : List Json)
    → as_array? o ≡ some vs
    → (items : Items) × (o ≡ some (array items)) × (to_list items ≡ vs)
unfolding as_array?
as_array?-some none vs h = cc
as_array?-some (some v) vs h =
    let (items, e, listed) = as_array-some v vs h in (items, ap some e, listed)

as_str-some : (v : Json) (s : String) → as_str v ≡ some s → v ≡ string s
unfolding as_str
as_str-some (string x) s h = cc
as_str-some null s h = cc
as_str-some (boolean x) s h = cc
as_str-some (number x) s h = cc
as_str-some (other_number x) s h = cc
as_str-some (array x) s h = cc
as_str-some (object x) s h = cc

as_str?-some : (o : Option Json) (s : String) → as_str? o ≡ some s → o ≡ some (string s)
unfolding as_str?
as_str?-some none s h = cc
as_str?-some (some v) s h = ap some (as_str-some v s h)

stored_key-some :
    (entry : Json) (vs : List Json)
    → stored_key entry ≡ some vs
    → (items : Items) × (get "public_key" (unwrap_or (get "fields" entry) entry)
        ≡ some (array items))
      × (to_list items ≡ vs)
unfolding stored_key
stored_key-some entry vs h =
    elim (Option-cases (get "public_key" (unwrap_or (get "fields" entry) entry))) [
      | inl e ↦ (let clash : ⊥ = cc (rw (stored_key, e) at h) in absurd clash)
      | inr (v, e) ↦
          let (items, same, listed) = as_array-some v vs (rw (stored_key, e) at h) in
          (items, e ∙ ap some same, listed)
    ]

holds_key-Holds :
    (public_key : Bytes) (entry : Json) → holds_key public_key entry ≡ true → Holds public_key entry
unfolding holds_key
holds_key-Holds public_key entry h = elim (Option-cases (stored_key entry)) [
  | inl e ↦ (let clash : ⊥ = cc (rw (holds_key, e) at h) in absurd clash)
  | inr (vs, e) ↦
      let (items, there, listed) = stored_key-some entry vs e in
      (items, there, listed ∙ is_bytes-numbers public_key vs (rw (holds_key, e) at h))
]

-- An object's fields that name the owner and list the key
abbrev pub Lists : Bytes → String → Fields → Type 0
Lists public_key owner fields =
    (keys : Items) × (entry : Json) × (get_field "owner" fields ≡ some (string owner))
    × (get_field "delegate_keys" fields ≡ some (array keys))
    × Memᴰ entry (to_list keys)
    × Holds public_key entry

guarded :
    (b : Bool) (named owner : String) (e : OnchainVerifyError)
    → (if b then ok named else err e) ≡ ok owner
    → (b ≡ true) × (named ≡ owner)
guarded true named owner e h = (refl, cc)
guarded false named owner e h = cc

owner_of-Lists :
    (public_key : Bytes) (account_id owner : String) (fields : Fields)
    → owner_of public_key account_id fields ≡ ok owner
    → Lists public_key owner fields
unfolding owner_of
owner_of-Lists public_key account_id owner fields h =
    let (named, p1, h1) = and_then-eq-ok (ok_or (as_str? (get_field "owner" fields)) _) _ h in
    let (vs, p2, h2) =
      and_then-eq-ok (ok_or (as_array? (get_field "delegate_keys" fields)) _) _ h1 in
    let (listed, same) = guarded (any (holds_key public_key) vs) named owner _ h2 in
    let named_there = as_str?-some _ named (ok_or-eq-ok _ _ p1) in
    let (items, there, all) = as_array?-some _ vs (ok_or-eq-ok _ _ p2) in
    let (entry, m, holds) = any-Mem (holds_key public_key) vs listed in
    (
      items,
      entry,
      named_there ∙ ap (λ s. some (string s)) same,
      there,
      subst (λ l. Memᴰ entry l) (sym all) m,
      holds_key-Holds public_key entry holds,
    )

content-some :
    (o : Option RpcResult) (result : RpcResult) (content : ObjectContent) (fields : Fields)
    → o ≡ some result
    → content_of result.object_data ≡ some content
    → content.fields ≡ some fields
    → o
      ≡ some (record {
        object_data = some (record { content = some (record { fields = some fields }) });
      })
unfolding content_of
content-some o result content fields p q r = ground (arith, p, q, r)

-- What a reply says from which an owner is read
pub read_response-Names :
    (public_key : Bytes) (account_id owner : String) (reply : RpcReply RpcResponse)
    → read_response public_key account_id reply ≡ ok owner
    → Names public_key owner reply
unfolding read_response
read_response-Names public_key account_id owner (not_sent e) h = cc
read_response-Names public_key account_id owner (not_parsed e) h = cc
read_response-Names public_key account_id owner (parsed response) h =
    elim (Option-cases response.error) [
      | inr (error, e) ↦ (let clash : ⊥ = cc (rw e at h) in absurd clash)
      | inl e ↦
          let (result, p1, h1) = and_then-eq-ok (ok_or response.result _) _ (rw e at h) in
          let (content, p2, h2) = and_then-eq-ok (ok_or (content_of result.object_data) _) _ h1 in
          let (fields, p3, h3) = and_then-eq-ok (ok_or content.fields _) _ h2 in
          let (keys, entry, named, there, m, holds) =
            owner_of-Lists public_key account_id owner fields h3 in
          (
            response,
            fields,
            keys,
            entry,
            refl,
            e,
            content-some response.result result content fields (ok_or-eq-ok _ _ p1)
                (ok_or-eq-ok _ _ p2) (ok_or-eq-ok _ _ p3),
            named,
            there,
            m,
            holds,
          )
    ]
