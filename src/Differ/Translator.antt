-- ===== src/Differ/Translator.antt =====
-- differ/translator.go: what a JSON patch means to a reader. Patches are those of the library
-- jsondiff; `to_lower` is strings.ToLower.
use mcptrust.Base.{
  ℕ, ◌≡◌, refl, inl, inr, Bool, true, false, not, ◌&&◌, ◌||◌, Option, none, some, List, [], ◌∷◌,
  ◌++◌, ◌==◌, if◌then◌else◌, Bool-cases, is_empty, All, Bytes, codes, bytes_eq, contains, elem,
}
use mcptrust.Differ.{Severity, safe, moderate, critical}

pub data Op : Type 0 where
  add remove replace other_op : Op

pub record Operation : Type 0 where
  pub type : Op
  pub path : Bytes

-- strings.HasSuffix.
unfoldable pub has_suffix : Bytes → Bytes → Bool
has_suffix [] p = is_empty p
has_suffix (c ∷ s) p = bytes_eq (c ∷ s) p || has_suffix s p

abbrev cons_first : ℕ → List Bytes → List Bytes
cons_first c [] = (c ∷ []) ∷ []
cons_first c (p ∷ parts) = (c ∷ p) ∷ parts

-- strings.Split at '/'.
unfoldable pub split_path : Bytes → List Bytes
split_path [] = [] ∷ []
split_path (c ∷ s) = let rest = split_path s in if c == b'/' then [] ∷ rest else cons_first c rest

-- The part behind the first "properties" that has one.
unfoldable pub property_name : List Bytes → Option Bytes
property_name [] = none
property_name (p ∷ []) = none
property_name (p ∷ q ∷ parts) =
    if bytes_eq p (codes "properties") then some q else property_name (q ∷ parts)

-- The warning sign of the source, and a space.
abbrev pub warning : Bytes
warning = 226 ∷ 154 ∷ 160 ∷ 239 ∷ 184 ∷ 143 ∷ 32 ∷ 32 ∷ []

-- The text for an argument, with its name between quotes where the path has one.
argument_text : Bytes → Bytes → Bytes → Option Bytes → Bytes
argument_text front back unnamed none = unnamed
argument_text front back unnamed (some name) = front ++ (39 ∷ (name ++ (39 ∷ back)))

argument_text-shown :
    (name : Option Bytes)
    → is_empty
        (argument_text (codes "New argument ") (codes " added.") (codes "New argument added.") name)
      ≡ false
unfolding argument_text
argument_text-shown none = refl
argument_text-shown (some name) = refl

module _ (to_lower : Bytes → Bytes) where
  names_required : Bytes → Bool
  unfolding has_suffix
  names_required path =
      has_suffix (to_lower path) (codes "/required")
      || contains (to_lower path) (codes "/required/")

  unfoldable pub translate_add : Bytes → Bytes
  unfolding names_required property_name split_path argument_text
  translate_add path =
      if names_required path
      then warning ++ codes "CRITICAL: New required argument added."
      else if contains (to_lower path) (codes "/properties/")
      then argument_text (codes "New argument ") (codes " added.") (codes "New argument added.")
          (property_name (split_path path))
      else codes "New capability/argument added."

  unfoldable pub translate_remove : Bytes → Bytes
  unfolding names_required property_name split_path argument_text
  translate_remove path =
      if names_required path
      then codes "Required argument constraint removed."
      else if contains (to_lower path) (codes "/properties/")
      then argument_text (codes "Argument ") (codes " removed.") (codes "Argument removed.")
          (property_name (split_path path))
      else codes "Capability removed."

  unfoldable pub translate_replace : Bytes → Bytes
  unfolding has_suffix
  translate_replace path =
      if contains (to_lower path) (codes "description")
      then codes "Documentation update."
      else if has_suffix (to_lower path) (codes "/type")
      then codes "Argument type changed."
      else if contains (to_lower path) (codes "/required")
      then warning ++ codes "CRITICAL: Required arguments modified."
      else codes "Capability modified."

  unfoldable pub translate_operation : Operation → Bytes
  unfolding translate_add translate_remove translate_replace
  translate_operation op = elim op.type [
    | add ↦ translate_add op.path
    | remove ↦ translate_remove op.path
    | replace ↦ translate_replace op.path
    | other_op ↦ []
  ]

  -- The loop of Translate, with the texts that it has seen.
  unfoldable pub translate_from : List Bytes → List Operation → List Bytes
  unfolding translate_operation
  translate_from seen [] = []
  translate_from seen (op ∷ ops) =
      let text = translate_operation op in
      let fresh = not (is_empty text) && not (elem text seen) in
      let rest = translate_from (if fresh then text ∷ seen else seen) ops in
      if fresh then text ∷ rest else rest

  unfoldable pub translate : List Operation → List Bytes
  unfolding translate_from
  translate patches = translate_from [] patches

  unfoldable pub get_severity : Bytes → Severity
  get_severity text =
      if contains text (226 ∷ 154 ∷ 160 ∷ 239 ∷ 184 ∷ 143 ∷ [])
        || (contains text (codes "CRITICAL")
            || (contains (to_lower text) (codes "removed")
                || contains (to_lower text) (codes "required")))
      then critical
      else if contains (to_lower text) (codes "documentation")
      then safe
      else moderate

  add-shown : (path : Bytes) → is_empty (translate_add path) ≡ false
  unfolding translate_add
  add-shown path = elim (Bool-cases (names_required path)) [
    | inl e ↦ rw (e) refl
    | inr e ↦ elim (Bool-cases (contains (to_lower path) (codes "/properties/"))) [
      | inl f ↦ rw (e, f) (argument_text-shown (property_name (split_path path)))
      | inr f ↦ rw (e, f) refl
    ]
  ]

  first-shown :
      (op : Operation) (ops : List Operation)
      → is_empty (translate_operation op) ≡ false
      → is_empty (translate (op ∷ ops)) ≡ false
  unfolding translate translate_from
  first-shown op ops h = rw (h) refl

  add_operation-shown : (op : Operation) → op.type ≡ add → is_empty (translate_operation op) ≡ false
  unfolding translate_operation
  add_operation-shown op h = rw (h) (add-shown op.path)

  -- A patch of additions, unless it is empty, has a translation.
  pub translate-nil :
      (ops : List Operation)
      → All (λ (o : Operation). o.type ≡ add) ops
      → is_empty (translate ops) ≡ true
      → is_empty ops ≡ true
  translate-nil [] a h = refl
  translate-nil (op ∷ ops) a h = let shown = first-shown op ops (add_operation-shown op a.0) in cc
