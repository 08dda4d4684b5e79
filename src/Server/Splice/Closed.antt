-- ===== src/Server/Splice/Closed.antt =====
-- The bracket that the second loop of `insert_token_text` of src/bin/g2mirror-server.rs finds.
use g2mirror.Prelude.{
  ℕ, zero, suc, ◌+◌, ◌≡◌, ◌⊎◌, sym, ap, ◌∙◌, subst, List, [], ◌∷◌, ◌++◌, some, some_eq, Bytes, All,
  length, get_elem?, drop, length-append, append_assoc, ◌==◌, Bool-cases, Option-cases, inl, inr,
  arith,
}
use g2mirror.Jsonc.Pieces.{Item, IsItem}
use g2mirror.Server.Splice.{skip_string, opens, closes, shallower, find_close}
use g2mirror.Server.Splice.Tokens.{
  Token, string, up, down, other, token_bytes, render, IsToken, IsDown, turn, level, Stays,
  opens-IsUp, closes-IsDown, other-IsToken,
}
use g2mirror.Server.Splice.Strings.{step_drop, string_step}
use g2mirror.Server.Splice.Found.{lower}

-- In the text, that starts at the depth `d`, stands the bracket that closes the outermost one, and
-- its index is `close`.
pub record HasClose (bytes text : Bytes) (d close : ℕ) : Type 0 where
  pub inner : List Token
  pub bracket : ℕ
  pub tokens : All IsToken inner
  pub layout : text ≡ render inner ++ bracket ∷ drop (close + 1) bytes
  pub found : get_elem? bytes close ≡ some bracket
  pub stays : Stays d inner
  pub falls : IsDown bracket
  pub last : turn (level d inner) (down bracket) ≡ 0

HasClose-cons :
    (t : Token) (bytes text rest : Bytes) (d close : ℕ)
    → text ≡ token_bytes t ++ rest
    → IsToken t
    → ((ts : List Token) → Stays (turn d t) ts → Stays d (t ∷ ts))
    → HasClose bytes rest (turn d t) close
    → HasClose bytes text d close
HasClose-cons t bytes text rest d close e good stays h = record {
  inner = t ∷ h.inner;
  bracket = h.bracket;
  tokens = (good, h.tokens);
  layout =
      e
      ∙ ap (λ r. token_bytes t ++ r) h.layout
      ∙ sym (append_assoc (token_bytes t) (render h.inner) _);
  found = h.found;
  stays = stays h.inner h.stays;
  falls = h.falls;
  last = h.last;
}

HasClose-nil : {bytes : Bytes} {d close : ℕ} → HasClose bytes [] d close → (n : ℕ) → n ≡ 0
HasClose-nil {bytes} {d} {close} h n = absurd (
    omega (
      arith,
      ap length h.layout,
      length-append (render h.inner) (h.bracket ∷ drop (close + 1) bytes),
    ))

close_later :
    {bytes : Bytes} (i : ℕ) {d close : ℕ}
    → (drop (skip_string bytes i) bytes ≡ [])
      ⊎ ((items : List Item) × All IsItem items
          × (drop i bytes ≡ token_bytes (string items) ++ drop (skip_string bytes i) bytes))
    → HasClose bytes (drop (skip_string bytes i) bytes) d close
    → HasClose bytes (drop i bytes) d close
close_later {bytes} i {d} {close} (inl past) h = absurd (
    let e : 1 ≡ 0 = HasClose-nil (subst (λ r. HasClose bytes r d close) past h) 1 in
    omega (arith, e))
close_later {bytes} i {d} {close} (inr (items, good, split)) h =
    HasClose-cons (string items) bytes (drop i bytes) (drop (skip_string bytes i) bytes) d close
      split good (λ ts s. s) h

-- What the second loop finds.
pub find_close-HasClose :
    (f : ℕ) (bytes : Bytes) (i d close : ℕ)
    → find_close f bytes i d ≡ some close
    → HasClose bytes (drop i bytes) d close
unfolding find_close
find_close-HasClose zero bytes i d close = λ h. absurd cc
find_close-HasClose (suc f) bytes i d close = elim (Option-cases (get_elem? bytes i)) [
  | inl n ↦ rw (find_close, n) (λ h. absurd cc)
  | inr (b, at) ↦
      let next = step_drop bytes i at in
      let text = drop i bytes in
      let rest = drop (i + 1) bytes in
      rw (find_close, at)
        (elim (Bool-cases (b == b'"')) [
          | inl q ↦ rw q (λ h.
              close_later i (string_step bytes i at (ground (arith, q)))
                (find_close-HasClose f bytes (skip_string bytes i) d close h))
          | inr q ↦ rw q (elim (Bool-cases (opens b)) [
            | inl o ↦ rw o (λ h.
                HasClose-cons (up b) bytes text rest d close next (opens-IsUp b o) (λ ts s. s)
                  (find_close-HasClose f bytes (i + 1) _ close h))
            | inr o ↦ rw o (elim (Bool-cases (closes b)) [
              | inl c ↦ rw c (elim (Bool-cases (shallower d == 0)) [
                | inl z ↦ rw z (λ h. subst (HasClose bytes text d) (some_eq h) (record {
                  inner = [];
                  bracket = b;
                  tokens = tt;
                  layout = next;
                  found = at;
                  stays = tt;
                  falls = closes-IsDown b c;
                  last = sym (lower d) ∙ ground (arith, z);
                }))
                | inr z ↦ rw z (λ h.
                    HasClose-cons (down b) bytes text rest d close next (closes-IsDown b c)
                      (λ ts s. (λ e. absurd (let g = lower d ∙ e in ground (arith, z, g)), s))
                      (subst (λ n. HasClose bytes rest n close) (lower d)
                        (find_close-HasClose f bytes (i + 1) _ close h)))
              ])
              | inr c ↦ rw c (λ h.
                  HasClose-cons (other b) bytes text rest d close next (other-IsToken b q o c)
                    (λ ts s. s) (find_close-HasClose f bytes (i + 1) d close h))
            ])
          ])
        ])
]
