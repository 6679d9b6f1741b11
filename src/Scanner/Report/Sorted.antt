-- ===== src/Scanner/Report/Sorted.antt =====
-- The sorting of the prompts and the templates of a scan (scanner/engine.go).
use mcptrust.Base.{
  ◌≡◌, refl, inl, inr, true, false, List, [], ◌∷◌, map, arith, Bool-cases, Bytes, bytes_lt,
}
use mathlib.Core.List.{Perm}
use mathlib.Core.List.Perm
use mcptrust.Models.{PromptArgument, Prompt, ResourceTemplate}
use mcptrust.Scanner.Report.{insert_by, sort_by, sort_prompt, sort_prompts, sort_templates}

bytes_lt_asym : (s t : Bytes) → bytes_lt s t ≡ true → bytes_lt t s ≡ false
unfolding bytes_lt
bytes_lt_asym [] [] h = refl
bytes_lt_asym [] (b ∷ t) h = refl
bytes_lt_asym (a ∷ s) [] h = cc
bytes_lt_asym (a ∷ s) (b ∷ t) h = ground (arith, bytes_lt_asym s t)

module _ {A : Type 0} (key : A → Bytes) where
  -- No item has a key below that of the item before it.
  abbrev pub LeHead : A → List A → Type 0
  LeHead a [] = Unit
  LeHead a (b ∷ bs) = bytes_lt (key b) (key a) ≡ false

  abbrev pub IsSortedBy : List A → Type 0
  IsSortedBy [] = Unit
  IsSortedBy (a ∷ bs) = LeHead a bs × IsSortedBy bs

  perm-insert_by : (a : A) (bs : List A) → Perm (insert_by key a bs) (a ∷ bs)
  unfolding insert_by
  perm-insert_by a [] = Perm.refl (a ∷ [])
  perm-insert_by a (b ∷ bs) = elim (Bool-cases (bytes_lt (key b) (key a))) [
    | inl later ↦ rw later (Perm.trans (Perm.cons b (perm-insert_by a bs)) (Perm.swap a b bs))
    | inr first ↦ rw first (Perm.refl (a ∷ b ∷ bs))
  ]

  pub perm-sort_by : (bs : List A) → Perm (sort_by key bs) bs
  unfolding sort_by
  perm-sort_by [] = Perm.refl []
  perm-sort_by (a ∷ bs) =
      Perm.trans (perm-insert_by a (sort_by key bs)) (Perm.cons a (perm-sort_by bs))

  LeHead-insert_by :
      (c a : A) (bs : List A)
      → bytes_lt (key a) (key c) ≡ false
      → LeHead c bs
      → LeHead c (insert_by key a bs)
  unfolding insert_by
  LeHead-insert_by c a [] e h = e
  LeHead-insert_by c a (b ∷ bs) e h = elim (Bool-cases (bytes_lt (key b) (key a))) [
    | inl later ↦ rw later h
    | inr first ↦ rw first e
  ]

  insert_by-IsSortedBy : (a : A) (bs : List A) → IsSortedBy bs → IsSortedBy (insert_by key a bs)
  unfolding insert_by
  insert_by-IsSortedBy a [] h = (tt, tt)
  insert_by-IsSortedBy a (b ∷ bs) h = elim (Bool-cases (bytes_lt (key b) (key a))) [
    | inl later ↦ rw later (
      LeHead-insert_by b a bs (bytes_lt_asym (key b) (key a) later) h.0,
      insert_by-IsSortedBy a bs h.1,
    )
    | inr first ↦ rw first (first, h)
  ]

  pub sort_by-IsSortedBy : (bs : List A) → IsSortedBy (sort_by key bs)
  unfolding sort_by
  sort_by-IsSortedBy [] = tt
  sort_by-IsSortedBy (a ∷ bs) = insert_by-IsSortedBy a (sort_by key bs) (sort_by-IsSortedBy bs)

-- A prompt with its arguments in the order of their names.
pub record IsArranged (given shown : Prompt) : Type 0 where
  pub name : shown.name ≡ given.name
  pub description : shown.description ≡ given.description
  pub arguments : Perm shown.arguments given.arguments
  pub sorted : IsSortedBy (λ (a : PromptArgument). a.name) shown.arguments

-- Item by item.
abbrev pub AreArranged : List Prompt → List Prompt → Type 0
AreArranged [] [] = Unit
AreArranged (p ∷ ps) (q ∷ qs) = IsArranged p q × AreArranged ps qs
AreArranged _ _ = ⊥

AreArranged-map : (ps : List Prompt) → AreArranged ps (map sort_prompt ps)
unfolding sort_prompt
AreArranged-map [] = tt
AreArranged-map (p ∷ ps) = (
  record {
    name = refl;
    description = refl;
    arguments = perm-sort_by (λ (a : PromptArgument). a.name) p.arguments;
    sorted = sort_by-IsSortedBy (λ (a : PromptArgument). a.name) p.arguments;
  },
  AreArranged-map ps,
)

-- The prompts in the order of their names, each with its arguments in the order of theirs.
abbrev pub PromptsShown : List Prompt → List Prompt → Type 0
PromptsShown given shown =
    (ps : List Prompt) × Perm ps given
    × IsSortedBy (λ (p : Prompt). p.name) ps
    × AreArranged ps shown

pub sort_prompts-PromptsShown : (ps : List Prompt) → PromptsShown ps (sort_prompts ps)
unfolding sort_prompts
sort_prompts-PromptsShown ps =
    let sorted = sort_by (λ (p : Prompt). p.name) ps in
    (
      sorted,
      perm-sort_by (λ (p : Prompt). p.name) ps,
      sort_by-IsSortedBy (λ (p : Prompt). p.name) ps,
      AreArranged-map sorted,
    )

-- The templates in the order of their texts.
abbrev pub TemplatesShown : List ResourceTemplate → List ResourceTemplate → Type 0
TemplatesShown given shown =
    Perm shown given × IsSortedBy (λ (t : ResourceTemplate). t.uri_template) shown

pub sort_templates-TemplatesShown :
    (ts : List ResourceTemplate) → TemplatesShown ts (sort_templates ts)
unfolding sort_templates
sort_templates-TemplatesShown ts = (
  perm-sort_by (λ (t : ResourceTemplate). t.uri_template) ts,
  sort_by-IsSortedBy (λ (t : ResourceTemplate). t.uri_template) ts,
)
