-- ===== src/Session/Output/Streamed.antt =====
-- What a turn for the child's output (src/main.rs) leaves of the clients and the mirror.
use g2mirror.Prelude.{
  ℕ, ◌≡◌, refl, ap, ◌∙◌, Bool, true, false, not, ◌||◌, List, [], ◌∷◌, Option, none, some, Bytes,
  All, all, any, is_empty, if◌then◌else◌, if_intro, Bool-cases, inl, inr, arith,
}
use g2mirror.Session.Client.{
  Client, FromSession, output, title, awaiting_init, ready, viewing, send, send_on, deliver,
  is_viewing, is_live_viewing,
}
use g2mirror.Session.Client.Deliver.{deliver-sent, deliver-role, deliver-dead}
use g2mirror.Session.View.Synced.{last_snapshot, IsSynced}
use g2mirror.Session.Sweep.{lives}
use g2mirror.Session.Output.{send_to, send_remote, send_new_title}

-- A client that views now has viewed before, with the same last snapshot.
abbrev Follows : Client → Client → Type 0
Follows c d =
    is_live_viewing d ≡ true
    → (is_live_viewing c ≡ true) × (last_snapshot d.sent ≡ last_snapshot c.sent)

-- A message that is no snapshot.
abbrev IsQuiet : FromSession → Type 0
IsQuiet message = (sent : List FromSession) → last_snapshot (message ∷ sent) ≡ last_snapshot sent

deliver-Follows :
    (message : FromSession) (c : Client) → IsQuiet message → Follows c (deliver message c)
deliver-Follows message c quiet live =
    let alive : (deliver message c).dead ≡ false = ground (arith, live) in
    let viewed : is_viewing (deliver message c) ≡ is_viewing c =
      ap (λ st. elim st [ awaiting_init ↦ false | ready ↦ false | viewing ↦ true ])
        (deliver-role message c).1 in
    (
      ground (arith, live, viewed, deliver-dead message c alive),
      ap last_snapshot (deliver-sent message c alive) ∙ quiet c.sent,
    )

-- A send that went through leaves the client alive.
deliver-lives :
    (message : FromSession) (c : Client)
    → (send c message).1 ≡ true
    → (deliver message c).dead ≡ c.dead
unfolding deliver send send_on
deliver-lives message c = go c.sends
  where
    go :
        (s : List Bool)
        → (send_on s c message).1 ≡ true
        → (if (send_on s c message).1
            then (send_on s c message).0
            else record (send_on s c message).0 { dead = true }).dead
          ≡ c.dead
    go [] e = absurd cc
    go (true ∷ s) e = refl
    go (false ∷ s) e = absurd cc

-- Clients after messages: all follow, and if none was lost all that lived live.
abbrev pub AreFollowing : List Client → List Client × Bool → Type 0
AreFollowing cs (ds, lost) =
    ((rows cols : ℕ) → All (IsSynced rows cols) cs → All (IsSynced rows cols) ds)
    × (any is_live_viewing ds ≡ true → any is_live_viewing cs ≡ true)
    × (lost ≡ false → all lives cs ≡ true → all lives ds ≡ true)

one-AreFollowing :
    (c d : Client) (cs ds : List Client) (l lost : Bool)
    → Follows c d
    → (l ≡ false → d.dead ≡ c.dead)
    → AreFollowing cs (ds, lost)
    → AreFollowing (c ∷ cs) (d ∷ ds, l || lost)
one-AreFollowing c d cs ds l lost f alive (synced, views, live) = (
  λ r k h. ((λ now. (f now).1 ∙ h.0 (f now).0), synced r k h.1),
  λ v. elim (Bool-cases (is_live_viewing d)) [
    | inl now ↦ ground (arith, (f now).0)
    | inr idle ↦ ground (arith, v, idle, views)
  ],
  λ none_lost a. ground (arith, none_lost, a, alive, live),
)

send_to-AreFollowing :
    (p : Client → Bool) (message : FromSession) (cs : List Client)
    → IsQuiet message
    → AreFollowing cs (send_to p message cs)
unfolding send_to
send_to-AreFollowing p message [] quiet = ((λ r k h. h), (λ v. v), (λ e a. a))
send_to-AreFollowing p message (c ∷ cs) quiet =
    let (ds, lost) = send_to p message cs in
    let ih = send_to-AreFollowing p message cs quiet in
    if_intro (AreFollowing (c ∷ cs)) (p c) _ _
      (λ _.
        one-AreFollowing c (deliver message c) cs ds (not (send c message).1) lost
          (deliver-Follows message c quiet) (λ went. deliver-lives message c (ground (arith, went)))
          ih)
      (λ _. one-AreFollowing c c cs ds false lost (λ now. (now, refl)) (λ _. refl) ih)

pub joined-AreFollowing :
    (cs ds es : List Client) (l lost : Bool)
    → AreFollowing cs (ds, l)
    → AreFollowing ds (es, lost)
    → AreFollowing cs (es, l || lost)
joined-AreFollowing cs ds es l lost (s, v, a) (s', v', a') = (
  λ r k h. s' r k (s r k h),
  λ e. v (v' e),
  λ none_lost h. a' (ground (arith, none_lost)) (a (ground (arith, none_lost)) h),
)

pub send_remote-AreFollowing :
    (o : Option Bytes) (cs : List Client) → AreFollowing cs (send_remote o cs)
unfolding send_remote
send_remote-AreFollowing none cs = ((λ r k h. h), (λ v. v), (λ e a. a))
send_remote-AreFollowing (some bytes) cs =
    if_intro (AreFollowing cs) (is_empty bytes) _ _ (λ _. ((λ r k h. h), (λ v. v), (λ e a. a)))
      (λ _. send_to-AreFollowing is_viewing (output bytes) cs (λ sent. refl))

pub send_new_title-AreFollowing :
    (o : Option Bytes) (cs : List Client) → AreFollowing cs (send_new_title o cs)
unfolding send_new_title
send_new_title-AreFollowing none cs = ((λ r k h. h), (λ v. v), (λ e a. a))
send_new_title-AreFollowing (some t) cs =
    send_to-AreFollowing (λ c. true) (title t) cs (λ sent. refl)
