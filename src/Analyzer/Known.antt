-- ===== src/Analyzer/Known.antt =====
-- The names that _apply_creation_policy (backend/analyzer.py) lets through.
use mathlib.Core.Path.{subst}
use paperless_iq.Prelude.{
  String, ◌≡◌, refl, sym, ap, ◌∙◌, ◌≢◌, inl, inr, Bool, true, false, ◌||◌, Option, none, some, List,
  [], ◌∷◌, Bool-cases, Option-cases, keep, All, nat_eq, string_eq, ◌==◌, ==_refl, eq_of_==,
  contains, Somewhere,
}
use paperless_iq.Approval.Py.{Py}
use paperless_iq.Approval.Entities.{EntityType, Policy, allow_new, existing_only}
use paperless_iq.Analyzer.Policy.{existing, is_known, policed_name}

or_true : (a b : Bool) → b ≡ true → (a || b) ≡ true
or_true true b e = refl
or_true false b e = e

module _ {F : Type 0} (py : Py F) where
  -- One of the names reads the same, case aside.
  abbrev pub KnownName : List String → String → Type 0
  KnownName names name = Somewhere (λ e. py.lower e ≡ py.lower name) names

  pub known_name :
      (names : List String) (name : String) → is_known py names name ≡ true → KnownName names name
  unfolding is_known
  known_name [] name h = absurd (cc h)
  known_name (e ∷ names) name h = elim (Bool-cases (py.lower e == py.lower name)) [
    | inl q ↦ inl (eq_of_== (py.lower e) (py.lower name) q)
    | inr q ↦ inr (known_name names name (rw q at h))
  ]

  pub known_is :
      (names : List String) (name : String) → KnownName names name → is_known py names name ≡ true
  unfolding is_known
  known_is [] name h = absurd h
  known_is (e ∷ names) name (inl h) = rw h (rw (==_refl (py.lower name)) refl)
  known_is (e ∷ names) name (inr h) =
      or_true (py.lower e == py.lower name) (is_known py names name) (known_is names name h)

  -- What a policy makes of one name.
  pub record NamePoliced (policy : Policy) (before after : Option String)
      (known : Option (List String)) : Type 0 where
    pub new_kept : policy ≡ allow_new → after ≡ before
    pub never_other : (name : String) → after ≡ some name → before ≡ some name
    pub known_only :
        policy ≡ existing_only
        → (names : List String) (name : String) → known ≡ some names
        → name ≢ ""
        → after ≡ some name
        → KnownName names name
    pub known_kept :
        (names : List String) (name : String)
        → known ≡ some names
        → KnownName names name
        → before ≡ some name
        → after ≡ before

  -- What a policy makes of the tags.
  pub record TagsPoliced (policy : Policy) (before after : List String)
      (known : Option (List String)) : Type 0 where
    pub new_kept : policy ≡ allow_new → after ≡ before
    pub never_other : All (λ t. contains before t ≡ true) after
    pub known_only :
        policy ≡ existing_only
        → (names : List String) → known ≡ some names
        → All (KnownName names) after
    pub known_kept :
        (names : List String)
        → known ≡ some names
        → (t : String) → KnownName names t
        → contains before t ≡ true
        → contains after t ≡ true

pub inside :
    (ts us : List String)
    → ((t : String) → contains us t ≡ true → contains ts t ≡ true)
    → All (λ t. contains ts t ≡ true) us
inside ts [] f = tt
inside ts (u ∷ us) f =
    (f u (rw (==_refl u) refl), inside ts us (λ t h. f t (or_true (u == t) (contains us t) h)))

pub contains-keep :
    (p : String → Bool) (ts : List String) (t : String)
    → p t ≡ true
    → contains ts t ≡ true
    → contains (keep p ts) t ≡ true
contains-keep p [] t pt h = h
contains-keep p (u ∷ ts) t pt h = elim (Bool-cases (u == t)) [
  | inl q ↦ let same : p u ≡ true = ap p (eq_of_== u t q) ∙ pt in rw same (rw q refl)
  | inr q ↦ elim (Bool-cases (p u)) [
    | inl e ↦ rw e (rw q (contains-keep p ts t pt (rw q at h)))
    | inr e ↦ rw e (contains-keep p ts t pt (rw q at h))
  ]
]

pub kept_pass : (p : String → Bool) (ts : List String) → All (λ t. p t ≡ true) (keep p ts)
kept_pass p [] = tt
kept_pass p (t ∷ ts) = elim (Bool-cases (p t)) [
  | inl e ↦ rw e (e, kept_pass p ts)
  | inr e ↦ rw e (kept_pass p ts)
]

pub weaken :
    (P Q : String → Type 0) (ts : List String) → ((t : String) → P t → Q t) → All P ts → All Q ts
weaken P Q [] f a = tt
weaken P Q (t ∷ ts) f a = (f t a.0, weaken P Q ts f a.1)

module _ {F : Type 0} (py : Py F) (list_entities : EntityType → Option (List String)) where
  name_kept :
      (policy : Policy) (name : Option String) (known : Option (List String))
      → (policy ≡ existing_only → (n : String) → name ≡ some n → n ≢ "" → ⊥)
      → NamePoliced py policy name name known
  name_kept policy name known only = record {
    new_kept = λ h. refl;
    never_other = λ n h. h;
    known_only = λ h names n k ne e. absurd (only h n e ne);
    known_kept = λ names n k h e. refl;
  }

  name_dropped :
      (name : String) (names : List String)
      → is_known py names name ≡ false
      → NamePoliced py existing_only (some name) none (some names)
  name_dropped name names h = record {
    new_kept = λ e. absurd (cc (e));
    never_other = λ n e. absurd (cc (e));
    known_only = λ e ns n k ne a. absurd (cc (a));
    known_kept = λ ns n k q e.
        let same : names ≡ ns = cc k in
        let is : name ≡ n = cc e in
        absurd (
          cc (
            sym h
            ∙ (ap (λ l. is_known py l name) same ∙ (ap (is_known py ns) is ∙ known_is py ns n q))));
  }

  name_passes :
      (name : String) (names : List String)
      → is_known py names name ≡ true
      → NamePoliced py existing_only (some name) (some name) (some names)
  name_passes name names h = record {
    new_kept = λ e. refl;
    never_other = λ n e. e;
    known_only = λ e ns n k ne a.
        let same : names ≡ ns = cc k in
        let is : name ≡ n = cc a in
        known_name py ns n (sym (ap (λ l. is_known py l name) same ∙ ap (is_known py ns) is) ∙ h);
    known_kept = λ ns n k q e. refl;
  }

  pub name_policed :
      (policy : Policy) (all : Option (List String)) (entity_type : EntityType)
      (name after : Option String)
      → policed_name py list_entities policy all entity_type name ≡ some after
      → NamePoliced py policy name after (existing list_entities all entity_type)
  unfolding policed_name
  name_policed policy all entity_type none after h =
      let same : none ≡ after = cc h in
      subst (λ a. NamePoliced py policy none a (existing list_entities all entity_type)) same
        (name_kept policy none (existing list_entities all entity_type) (λ e n q ne. cc q))
  name_policed allow_new all entity_type (some name) after h =
      let same : some name ≡ after = cc h in
      subst (λ a. NamePoliced py allow_new (some name) a (existing list_entities all entity_type))
        same
        (name_kept allow_new (some name) (existing list_entities all entity_type)
          (λ e n q ne. cc e))
  name_policed existing_only all entity_type (some name) after h = elim (Bool-cases (name == "")) [
    | inl e ↦
        let same : some name ≡ after = cc (rw e at h) in
        subst
          (λ a. NamePoliced py existing_only (some name) a (existing list_entities all entity_type))
          same
          (name_kept existing_only (some name) (existing list_entities all entity_type)
            (λ _ n q ne. let is : name ≡ n = cc q in ne (sym is ∙ eq_of_== name "" e)))
    | inr e ↦ elim (Option-cases (existing list_entities all entity_type)) [
      | inl n ↦ absurd (cc (rw (e, n) at h))
      | inr (names, n) ↦ rw n (elim (Bool-cases (is_known py names name)) [
        | inl k ↦
            let same : some name ≡ after = cc (rw (e, n, k) at h) in
            subst (λ a. NamePoliced py existing_only (some name) a (some names)) same
              (name_passes name names k)
        | inr k ↦
            let same : none ≡ after = cc (rw (e, n, k) at h) in
            subst (λ a. NamePoliced py existing_only (some name) a (some names)) same
              (name_dropped name names k)
      ])
    ]
  ]
