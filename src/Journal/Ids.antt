-- ===== src/Journal/Ids.antt =====
-- core/journal.py: an id is read back as the key and the number that it was made of.
use liquidity_bot.Prelude.{
  ℕ, zero, suc, ◌+◌, ◌-◌, ◌/◌, ◌%◌, ◌≤◌, ◌≡◌, refl, ap, sym, ◌∙◌, if_cases, true, false, none, some,
  [], ◌∷◌, ◌++◌, arith, ◌==◌, ==_iff, length, Bool-cases, inl, inr,
}
use liquidity_bot.Journal.{
  Text, emit, zeros, pad4, int_from, all_digits, is_digit, rsplit, wliq, client_order_id, seq_parts,
}

-- The fuel is enough: `n` rounds emit all digits of `n`.
int_from-emit : (fuel n : ℕ) (out : Text) → n ≤ fuel → int_from 0 (emit fuel n out) ≡ int_from n out
unfolding emit int_from
int_from-emit zero n out h = ap (λ m. int_from m out) (omega arith)
int_from-emit (suc fuel) n out h =
    let rest = int_from-emit fuel (n / 10) ((b'0' + n % 10) ∷ out) in
    elim (Bool-cases (n == 0)) [
      | inl e ↦ rw e (ap (λ m. int_from m out) (sym ((==_iff n 0).0 e)))
      | inr ne ↦ rw ne (rest (omega arith) ∙ ap (λ m. int_from m out) (omega arith))
    ]

all_digits-emit :
    (fuel n : ℕ) (out : Text) → all_digits out ≡ true → all_digits (emit fuel n out) ≡ true
unfolding emit
all_digits-emit zero n out h = h
all_digits-emit (suc fuel) n out h =
    if_cases (λ s. all_digits s ≡ true) (n == 0) out (emit fuel (n / 10) ((b'0' + n % 10) ∷ out))
      (λ _. h) (λ _. all_digits-emit fuel (n / 10) ((b'0' + n % 10) ∷ out) (ground arith))

int_from-zeros : (k : ℕ) (s : Text) → int_from 0 (zeros k s) ≡ int_from 0 s
unfolding int_from
int_from-zeros zero s = refl
int_from-zeros (suc k) s = int_from-zeros k s

all_digits-zeros : (k : ℕ) (s : Text) → all_digits s ≡ true → all_digits (zeros k s) ≡ true
all_digits-zeros zero s h = h
all_digits-zeros (suc k) s h = all_digits-zeros k s h

is_digit-zeros :
    (k c : ℕ) (s : Text) → all_digits (c ∷ s) ≡ true → is_digit (zeros k (c ∷ s)) ≡ true
is_digit-zeros zero c s h = h
is_digit-zeros (suc k) c s h = all_digits-zeros k (c ∷ s) h

is_digit-padded : (s : Text) → all_digits s ≡ true → is_digit (zeros (4 - length s) s) ≡ true
is_digit-padded [] h = refl
is_digit-padded (c ∷ s) h = is_digit-zeros (4 - length (c ∷ s)) c s h

is_digit-pad4 : (n : ℕ) → is_digit (pad4 n) ≡ true
unfolding pad4
is_digit-pad4 n = is_digit-padded (emit n n []) (all_digits-emit n n [] refl)

int_from-pad4 : (n : ℕ) → int_from 0 (pad4 n) ≡ n
unfolding pad4
int_from-pad4 n =
    int_from-zeros (4 - length (emit n n [])) (emit n n [])
    ∙ int_from-emit n n [] (omega arith)
    ∙ (unfold int_from in refl)

rsplit-digits : (s : Text) → all_digits s ≡ true → rsplit s ≡ none
unfolding rsplit
rsplit-digits [] h = refl
rsplit-digits (c ∷ s) h =
    let rest : rsplit s ≡ none = rsplit-digits s (ground arith) in
    let no_dash : (c == b'-') ≡ false = ground arith in rw (rest, no_dash) refl

rsplit-is_digit : (s : Text) → is_digit s ≡ true → rsplit s ≡ none
rsplit-is_digit [] h = cc
rsplit-is_digit (c ∷ s) h = rsplit-digits (c ∷ s) h

rsplit-dash : (p q : Text) → rsplit q ≡ none → rsplit (p ++ (b'-' ∷ q)) ≡ some (p, q)
unfolding rsplit
rsplit-dash [] q h = rw h refl
rsplit-dash (c ∷ p) q h = rw (rsplit-dash p q h) refl

-- What `record` reads off an id that `next_client_order_id` has made is the key and the number it was
-- made of, whatever dashes the key has and however many digits the number has.
pub seq_parts-client_order_id :
    (key : Text) (seq : ℕ) → seq_parts (client_order_id key seq) ≡ (some key, seq)
unfolding seq_parts client_order_id
seq_parts-client_order_id key seq =
    let digits = is_digit-pad4 seq in
    rw
      (
        rsplit-dash (wliq ++ key) (pad4 seq) (rsplit-is_digit (pad4 seq) digits),
        digits,
        int_from-pad4 seq,
      )
      refl
