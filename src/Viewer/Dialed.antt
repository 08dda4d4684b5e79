-- ===== src/Viewer/Dialed.antt =====
-- What `parse_connection_string` of src/bin/g2mirror-view.rs makes of a connection string.
use g2mirror.Prelude.{
  ℕ, ◌≡◌, refl, ap, ◌∙◌, true, false, not, [], ◌∷◌, ◌++◌, Option, none, some, Bytes, any, is_empty,
  ◌==◌, Option-cases, inl, inr, if_intro, subst, ascii, arith,
}
use g2mirror.Prelude.Decimal.{decimal}
use g2mirror.Prelude.Results.{ok}
use g2mirror.Viewer.{scheme_of, rsplit_once, is_port, has_port, with_port, parse_connection_string}

abbrev pub Lacks : ℕ → Bytes → Type 0
Lacks sep bs = any (λ c. c == sep) bs ≡ false

rsplit_once-none : (sep : ℕ) (bs : Bytes) → Lacks sep bs → rsplit_once sep bs ≡ none
unfolding rsplit_once
rsplit_once-none sep [] h = refl
rsplit_once-none sep (c ∷ cs) h =
    let e : (c == sep) ≡ false = ground (arith, h) in
    rw (rsplit_once-none sep cs (ground (arith, h)), e) refl

-- The split is at the last separator.
rsplit_once-last :
    (sep : ℕ) (before after : Bytes)
    → Lacks sep after
    → rsplit_once sep (before ++ sep ∷ after) ≡ some (before, after)
unfolding rsplit_once
rsplit_once-last sep [] after h =
    let e : (sep == sep) ≡ true = ground arith in rw (rsplit_once-none sep after h, e) refl
rsplit_once-last sep (c ∷ cs) after h = rw (rsplit_once-last sep cs after h) refl

dialed :
    (token host : Bytes)
    → is_empty token ≡ false
    → is_empty host ≡ false
    → Lacks b'@' host
    → (parse_connection_string (ascii "g2mirror://" ++ token ++ b'@' ∷ host)
        ≡ ok (token, ascii "ws://" ++ with_port host 8737))
      × (parse_connection_string (ascii "g2mirrors://" ++ token ++ b'@' ∷ host)
          ≡ ok (token, ascii "wss://" ++ with_port host 443))
unfolding parse_connection_string scheme_of
dialed token host t h l = (
  rw (rsplit_once-last b'@' token host l, t, h) refl,
  rw (rsplit_once-last b'@' token host l, t, h) refl,
)

closing : (bs : Bytes) → not (any (λ c. c == b']') (bs ++ b']' ∷ [])) ≡ false
closing [] = refl
closing (c ∷ cs) = ground (arith, closing cs)

-- A bracketed address has no port, whatever colons it has.
bracketed-is_port : (bs : Bytes) → is_port (rsplit_once b':' (bs ++ b']' ∷ [])) ≡ false
unfolding rsplit_once
bracketed-is_port [] = refl
bracketed-is_port (c ∷ cs) = elim (Option-cases (rsplit_once b':' (cs ++ b']' ∷ []))) [
  | inl n ↦ rw n (
      if_intro (λ (o : Option (Bytes × Bytes)). is_port o ≡ false) (c == b':') _ _ (λ _. closing cs)
        (λ _. refl))
  | inr (r, e) ↦ rw e (subst (λ o. is_port o ≡ false) e (bracketed-is_port cs))
]

with_port-none :
    (host : Bytes) (port : ℕ)
    → is_port (rsplit_once b':' host) ≡ false
    → with_port host port ≡ host ++ b':' ∷ decimal port
unfolding with_port has_port
with_port-none host port h = rw h refl

with_port-some :
    (name port : Bytes) (n : ℕ)
    → Lacks b':' port
    → Lacks b']' port
    → with_port (name ++ b':' ∷ port) n ≡ name ++ b':' ∷ port
unfolding with_port has_port
with_port-some name port n h k = rw (ap is_port (rsplit_once-last b':' name port h) ∙ ap not k) refl

full : (bs cs : Bytes) → is_empty bs ≡ false → is_empty (bs ++ cs) ≡ false
full [] cs h = absurd cc
full (b ∷ bs) cs h = refl

append-Lacks : (sep : ℕ) (bs cs : Bytes) → Lacks sep bs → Lacks sep cs → Lacks sep (bs ++ cs)
append-Lacks sep [] cs h k = k
append-Lacks sep (b ∷ bs) cs h k = ground (arith, append-Lacks sep bs cs, h, k)

-- The two schemes, each with what is dialed and the default port.
abbrev pub Dials : Bytes → Bytes → Bytes → Bytes → Type 0
Dials token host plain tls =
    (parse_connection_string (ascii "g2mirror://" ++ token ++ b'@' ∷ host)
      ≡ ok (token, ascii "ws://" ++ plain))
    × (parse_connection_string (ascii "g2mirrors://" ++ token ++ b'@' ∷ host)
        ≡ ok (token, ascii "wss://" ++ tls))

dialed-Dials :
    (token host plain tls : Bytes)
    → is_empty token ≡ false
    → is_empty host ≡ false
    → Lacks b'@' host
    → with_port host 8737 ≡ plain
    → with_port host 443 ≡ tls
    → Dials token host plain tls
dialed-Dials token host plain tls t h l p q =
    let (ws, wss) = dialed token host t h l in
    (
      ws ∙ ap (λ a. ok (token, ascii "ws://" ++ a)) p,
      wss ∙ ap (λ a. ok (token, ascii "wss://" ++ a)) q,
    )

-- A connection string's token is what stands in front of the last at sign, and the scheme,
-- `g2mirror` or `g2mirrors`, says whether TLS is dialed, and the default port, 8737 or 443. For
-- either scheme, that is appended to a host name without colons and to a bracketed address,
-- whatever it has inside but an at sign, and a port that is there is kept, behind either. Token and
-- name are not empty, the name has no at sign, and the port no at sign, colon or closing bracket.
pub parse_connection_string-Dials :
    (token name address port : Bytes)
    → is_empty token ≡ false
    → is_empty name ≡ false
    → Lacks b'@' name
    → Lacks b':' name
    → Lacks b'@' address
    → Lacks b'@' port
    → Lacks b':' port
    → Lacks b']' port
    → Dials token name (name ++ ascii ":8737") (name ++ ascii ":443")
      × Dials token (name ++ b':' ∷ port) (name ++ b':' ∷ port) (name ++ b':' ∷ port)
      × Dials token
          (b'[' ∷ address ++ b']' ∷ [])
          ((b'[' ∷ address ++ b']' ∷ []) ++ ascii ":8737")
          ((b'[' ∷ address ++ b']' ∷ []) ++ ascii ":443")
      × Dials token
          ((b'[' ∷ address ++ b']' ∷ []) ++ b':' ∷ port)
          ((b'[' ∷ address ++ b']' ∷ []) ++ b':' ∷ port)
          ((b'[' ∷ address ++ b']' ∷ []) ++ b':' ∷ port)
unfolding decimal
parse_connection_string-Dials token name address port t n na nc aa pa pc pb =
    let plain = λ (k : ℕ). with_port-none name k (ap is_port (rsplit_once-none b':' name nc)) in
    let bracketed : Bytes = b'[' ∷ address ++ b']' ∷ [] in
    let inside : Lacks b'@' bracketed = append-Lacks b'@' address (b']' ∷ []) aa refl in
    let bare = λ (k : ℕ). with_port-none bracketed k (bracketed-is_port (b'[' ∷ address)) in
    let kept = λ (host : Bytes) (k : ℕ). with_port-some host port k pc pb in
    (
      dialed-Dials token name _ _ t n na (plain 8737) (plain 443),
      dialed-Dials token (name ++ b':' ∷ port) _ _ t (full name (b':' ∷ port) n)
          (append-Lacks b'@' name (b':' ∷ port) na pa) (kept name 8737) (kept name 443),
      dialed-Dials token bracketed _ _ t refl inside (bare 8737) (bare 443),
      dialed-Dials token (bracketed ++ b':' ∷ port) _ _ t refl
          (append-Lacks b'@' bracketed (b':' ∷ port) inside pa) (kept bracketed 8737)
          (kept bracketed 443),
    )
