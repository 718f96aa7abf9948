-- ===== src/Actions/Dangers.antt =====
-- What the nested search finds.
use ai_game.Base.{◌≡◌, ◌↔◌, true, arith, Text, Bool-cases, inl, inr}
use ai_game.Actions.Rules.{
  Value, null, boolean, number, text, array, dict, Items, nil, item, Fields, end, field,
  is_dangerous_text, is_dangerous_key, contains_nested_danger, any_danger, contains_dangerous_field,
}

-- A dangerous text, or a dangerous key of an object, at any depth of the value.
mutual
  pub data Dangerous : Value → Type 0 where
    at_text : {t : Text} → is_dangerous_text t ≡ true → Dangerous (text t)
    in_array : {items : Items} → InItems items → Dangerous (array items)
    in_dict : {fields : Fields} → InFields fields → Dangerous (dict fields)

  pub data InItems : Items → Type 0 where
    at_item : {v : Value} {rest : Items} → Dangerous v → InItems (item v rest)
    later : {v : Value} {rest : Items} → InItems rest → InItems (item v rest)

  pub data InFields : Fields → Type 0 where
    at_key :
        {k : Text} {v : Value} {rest : Fields}
        → is_dangerous_key k ≡ true
        → InFields (field k v rest)
    at_field : {k : Text} {v : Value} {rest : Fields} → Dangerous v → InFields (field k v rest)
    beyond : {k : Text} {v : Value} {rest : Fields} → InFields rest → InFields (field k v rest)

mutual
  unfolding contains_nested_danger

  found : (v : Value) → contains_nested_danger v ≡ true → Dangerous v
  found null h = ground arith
  found (boolean b) h = ground arith
  found (number n) h = ground arith
  found (text t) h = at_text h
  found (array items) h = in_array (found_item items h)
  found (dict fields) h = in_dict (found_field fields h)

  found_item : (items : Items) → any_danger items ≡ true → InItems items
  found_item nil h = ground arith
  found_item (item v rest) h = elim (Bool-cases (contains_nested_danger v)) [
    | inl e ↦ at_item (found v e)
    | inr e ↦ later (found_item rest (ground (arith, h, e)))
  ]

  found_field : (fields : Fields) → contains_dangerous_field fields ≡ true → InFields fields
  found_field end h = ground arith
  found_field (field k v rest) h = elim (Bool-cases (is_dangerous_key k)) [
    | inl e ↦ at_key e
    | inr e ↦ elim (Bool-cases (contains_nested_danger v)) [
      | inl d ↦ at_field (found v d)
      | inr d ↦ beyond (found_field rest (ground (arith, h, e, d)))
    ]
  ]

mutual
  unfolding contains_nested_danger

  finds : (v : Value) → Dangerous v → contains_nested_danger v ≡ true
  finds _ (at_text e) = e
  finds _ (in_array d) = finds_item _ d
  finds _ (in_dict d) = finds_field _ d

  finds_item : (items : Items) → InItems items → any_danger items ≡ true
  finds_item nil d = elim d [ ]
  finds_item (item v rest) (at_item d) = ground (arith, finds v d)
  finds_item (item v rest) (later d) = ground (arith, finds_item rest d)

  finds_field : (fields : Fields) → InFields fields → contains_dangerous_field fields ≡ true
  finds_field end d = elim d [ ]
  finds_field (field k v rest) (at_key e) = ground (arith, e)
  finds_field (field k v rest) (at_field d) = ground (arith, finds v d)
  finds_field (field k v rest) (beyond d) = ground (arith, finds_field rest d)

-- The search finds a danger exactly if a dangerous text or key stands somewhere in the value.
pub contains_nested_danger_iff : (v : Value) → (contains_nested_danger v ≡ true) ↔ Dangerous v
contains_nested_danger_iff v = (found v, finds v)
