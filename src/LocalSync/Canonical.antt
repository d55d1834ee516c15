-- ===== src/LocalSync/Canonical.antt =====
-- packages/local-sync/src/index.ts: `normalizeCanonicalJson`. A finite number is a natural number that
-- stands for it.
use forgetbase.Prelude.{
  text, Option, none, some, ℕ, String, Bool, true, false, List, [], ◌∷◌, if◌then◌else◌, text_below,
  Result, ok, err, ◌>>=◌,
}

mutual
  -- the values that `typeof` tells apart; `other` is a function, a symbol or a bigint,
  -- with the name that `typeof` gives it
  pub data Json : Type 0 where
    null undefined non_finite : Json
    other : (kind : String) → Json
    bool : Bool → Json
    number : ℕ → Json
    quoted : String → Json
    array : Items → Json
    object : Fields → Json

  pub data Items : Type 0 where
    no_items : Items
    item : Json → Items → Items

  pub data Fields : Type 0 where
    no_fields : Fields
    entry : String → Json → Fields → Fields

abbrev is_undefined : Json → Bool
is_undefined undefined = true
is_undefined _ = false

-- A key with the outcome for its value; nothing for a value that is `undefined`.
abbrev pub Slot : Type 0
Slot = String × Option (Result Json)

-- `Object.keys(source).sort()`
abbrev pub insert_slot : Slot → List Slot → List Slot
insert_slot s [] = s ∷ []
insert_slot s (t ∷ ts) = if text_below t.0 s.0 then t ∷ insert_slot s ts else s ∷ t ∷ ts

abbrev pub sort_slots : List Slot → List Slot
sort_slots [] = []
sort_slots (s ∷ ss) = insert_slot s (sort_slots ss)

-- the loop over the sorted keys
unfoldable pub collect : List Slot → Result Fields
collect [] = ok no_fields
collect ((key, none) ∷ rest) = collect rest
collect ((key, some (err message)) ∷ rest) = err message
collect ((key, some (ok value)) ∷ rest) = collect rest >>= λ fields. ok (entry key value fields)

unfoldable mutual
  pub normalize : Json → Result Json
  normalize null = ok null
  normalize undefined = err "Canonical JSON cannot encode undefined"
  normalize non_finite = err "Canonical JSON cannot contain non-finite numbers"
  normalize (other kind) = err (text "Canonical JSON cannot encode " kind "")
  normalize (bool b) = ok (bool b)
  normalize (number n) = ok (number n)
  normalize (quoted s) = ok (quoted s)
  normalize (array items) = normalize_items items >>= λ normal. ok (array normal)
  normalize (object fields) = collect (sort_slots (slots fields)) >>= λ normal. ok (object normal)

  pub normalize_items : Items → Result Items
  normalize_items no_items = ok no_items
  normalize_items (item v rest) =
      normalize v >>= λ normal. (normalize_items rest >>= λ others. ok (item normal others))

  pub slots : Fields → List Slot
  slots no_fields = []
  slots (entry key value rest) =
      (key, if is_undefined value then none else some (normalize value)) ∷ slots rest

-- `canonicalJson(value)`, with `JSON.stringify` as an argument
unfoldable pub canonical_json : (Json → String) → Json → Result String
unfolding normalize
canonical_json stringify value = normalize value >>= λ normal. ok (stringify normal)
