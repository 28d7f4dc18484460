-- ===== src/Journal/Counts.antt =====
-- core/journal.py: the counters of the ids, and the ids that they cover.
use liquidity_bot.Prelude.{
  ℕ, ◌+◌, ◌≤◌, ◌≡◌, refl, ap, sym, ◌∙◌, Bool, true, false, ◌||◌, Option, none, some, some_inj, List,
  [], ◌∷◌, arith, ==_iff, Bool-cases, inl, inr, ◌⊎◌,
}
use liquidity_bot.Journal.{
  Text, same_text, contains_text, count_of, set_count, client_order_id, seq_parts, max_count,
}
use liquidity_bot.Journal.Ids.{seq_parts-client_order_id}

same_text-eq : (s t : Text) → same_text s t ≡ true → s ≡ t
unfolding same_text
same_text-eq [] [] h = refl
same_text-eq [] (d ∷ t) h = cc
same_text-eq (c ∷ s) [] h = cc
same_text-eq (c ∷ s) (d ∷ t) h = ground (arith, ==_iff c d, same_text-eq s t)

same_text_self : (s : Text) → same_text s s ≡ true
unfolding same_text
same_text_self [] = refl
same_text_self (c ∷ s) = ground (arith, ==_iff c c, same_text_self s)

pub count_of-grows :
    (key : Text) (other : Option Text) (n : ℕ) (d : List (Text × ℕ))
    → count_of key d ≤ count_of key (max_count other n d)
unfolding count_of set_count
count_of-grows key none n d = omega arith
count_of-grows key (some other) n d = elim (Bool-cases (same_text key other)) [
  | inl e ↦ rw e (ground (arith, ap (λ k. count_of k d) (same_text-eq key other e)))
  | inr ne ↦ rw ne (omega arith)
]

count_of-reaches :
    (key : Text) (n : ℕ) (d : List (Text × ℕ)) → n ≤ count_of key (max_count (some key) n d)
unfolding count_of set_count
count_of-reaches key n d = rw (same_text_self key) (ground arith)

pub count_of-issue :
    (key other : Text) (d : List (Text × ℕ))
    → count_of key d ≤ count_of key (set_count other (count_of other d + 1) d)
unfolding count_of set_count
count_of-issue key other d = elim (Bool-cases (same_text key other)) [
  | inl e ↦ rw e (omega (arith, ap (λ k. count_of k d) (same_text-eq key other e)))
  | inr ne ↦ rw ne (omega arith)
]

count_of-issued :
    (key : Text) (d : List (Text × ℕ))
    → count_of key (set_count key (count_of key d + 1) d) ≡ count_of key d + 1
unfolding count_of set_count
count_of-issued key d = rw (same_text_self key) refl

or_split : (a b : Bool) → (a || b) ≡ true → (a ≡ true) ⊎ (b ≡ true)
or_split true b h = inl refl
or_split false b h = inr h

pub contains-cons :
    (t s : Text) (ss : List Text)
    → contains_text t (s ∷ ss) ≡ true
    → (same_text t s ≡ true) ⊎ (contains_text t ss ≡ true)
unfolding contains_text
contains-cons t s ss h = or_split (same_text t s) (contains_text t ss) h

-- A counter of `key` is at least `n`, once a row with this id has been read.
pub reached :
    (key id : Text) (sk : Option Text) (n m : ℕ) (d : List (Text × ℕ))
    → (sk, m) ≡ seq_parts id
    → same_text (client_order_id key n) id ≡ true
    → n ≤ count_of key (max_count sk m d)
reached key id sk n m d written same =
    let eq : (sk, m) ≡ (some key, n) =
      written
      ∙ ap seq_parts (sym (same_text-eq (client_order_id key n) id same))
      ∙ seq_parts-client_order_id key n in
    rw (ap (λ (p : Option Text × ℕ). max_count p.0 p.1 d) eq) (count_of-reaches key n d)

-- every id of the form that the journal makes, once seen, is counted
abbrev pub IsCounted : List Text → List (Text × ℕ) → Type 0
IsCounted seen d =
    (key : Text) (n : ℕ) → contains_text (client_order_id key n) seen ≡ true → n ≤ count_of key d

pub IsCounted-issue :
    (key : Text) (seen : List Text) (d : List (Text × ℕ))
    → IsCounted seen d
    → let n = count_of key d + 1 in IsCounted (client_order_id key n ∷ seen) (set_count key n d)
IsCounted-issue key seen d h other n c =
    let count = count_of key d + 1 in
    elim (contains-cons (client_order_id other n) (client_order_id key count) seen c) [
      | inl same ↦
          let eq : (◌≡◌ {A = Option Text × ℕ} (some other, n) (some key, count)) =
            sym (seq_parts-client_order_id other n)
            ∙ ap seq_parts (same_text-eq (client_order_id other n) (client_order_id key count) same)
            ∙ seq_parts-client_order_id key count in
          let k : other ≡ key = some_inj.0 (ap (λ (p : Option Text × ℕ). p.0) eq) in
          let m : n ≡ count = ap (λ (p : Option Text × ℕ). p.1) eq in
          rw k (omega (arith, m, count_of-issued key d))
      | inr c ↦ omega (arith, h other n c, count_of-issue other key d)
    ]

pub IsCounted-again :
    (id : Text) (seen : List Text) (d : List (Text × ℕ))
    → contains_text id seen ≡ true
    → IsCounted seen d
    → IsCounted (id ∷ seen) d
IsCounted-again id seen d known h key n c = elim (contains-cons (client_order_id key n) id seen c) [
  | inl same ↦ h key n (rw (same_text-eq (client_order_id key n) id same) known)
  | inr c ↦ h key n c
]

pub known_cons :
    (t s : Text) (ss : List Text)
    → (same_text t s ≡ true) ⊎ (contains_text t ss ≡ true)
    → contains_text t (s ∷ ss) ≡ true
unfolding contains_text
known_cons t s ss h = ground arith
