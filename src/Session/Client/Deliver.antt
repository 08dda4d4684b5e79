-- ===== src/Session/Client/Deliver.antt =====
-- What a send leaves of a client (`Client::send` of src/control.rs and its callers).
use g2mirror.Prelude.{if_intro, ◌≡◌, refl, Bool, true, false, List, [], ◌∷◌, if◌then◌else◌}
use g2mirror.Session.Client.{Client, FromSession, send_on, send, deliver}

-- A client that lives after a message has got it.
pub deliver-sent :
    (message : FromSession) (c : Client)
    → (deliver message c).dead ≡ false
    → (deliver message c).sent ≡ message ∷ c.sent
unfolding deliver send send_on
deliver-sent message c = go c.sends
  where
    go :
        (s : List Bool)
        → (if (send_on s c message).1
            then (send_on s c message).0
            else record (send_on s c message).0 { dead = true }).dead
          ≡ false
        → (if (send_on s c message).1
            then (send_on s c message).0
            else record (send_on s c message).0 { dead = true }).sent
          ≡ message ∷ c.sent
    go [] live = absurd cc
    go (true ∷ s) live = refl
    go (false ∷ s) live = absurd cc

-- A message changes neither the role of a client nor its place in the order.
pub deliver-role :
    (message : FromSession) (c : Client)
    → ((deliver message c).role ≡ c.role) × ((deliver message c).state ≡ c.state)
unfolding deliver send send_on
deliver-role message c = go c.sends
  where
    go :
        (s : List Bool)
        → ((if (send_on s c message).1
              then (send_on s c message).0
              else record (send_on s c message).0 { dead = true }).role
            ≡ c.role)
          × ((if (send_on s c message).1
                then (send_on s c message).0
                else record (send_on s c message).0 { dead = true }).state
              ≡ c.state)
    go [] = (refl, refl)
    go (true ∷ s) = (refl, refl)
    go (false ∷ s) = (refl, refl)

-- A dead client stays dead.
pub deliver-dead :
    (message : FromSession) (c : Client) → (deliver message c).dead ≡ false → c.dead ≡ false
unfolding deliver send send_on
deliver-dead message c = go c.sends
  where
    go :
        (s : List Bool)
        → (if (send_on s c message).1
            then (send_on s c message).0
            else record (send_on s c message).0 { dead = true }).dead
          ≡ false
        → c.dead ≡ false
    go [] live = absurd cc
    go (true ∷ s) live = live
    go (false ∷ s) live = absurd cc

-- A send keeps what the client said of itself.
pub send-size :
    (message : FromSession) (c : Client)
    → ((send c message).0.width ≡ c.width) × ((send c message).0.height ≡ c.height)
unfolding send send_on
send-size message c = go c.sends
  where
    go :
        (s : List Bool)
        → ((send_on s c message).0.width ≡ c.width) × ((send_on s c message).0.height ≡ c.height)
    go [] = (refl, refl)
    go (true ∷ s) = (refl, refl)
    go (false ∷ s) = (refl, refl)

pub deliver-size :
    (message : FromSession) (c : Client)
    → ((deliver message c).width ≡ c.width) × ((deliver message c).height ≡ c.height)
unfolding deliver
deliver-size message c =
    if_intro (λ (d : Client). (d.width ≡ c.width) × (d.height ≡ c.height)) (send c message).1 _ _
      (λ _. send-size message c) (λ _. send-size message c)

pub send-role : (message : FromSession) (c : Client) → (send c message).0.role ≡ c.role
unfolding send send_on
send-role message c = go c.sends
  where
    go : (s : List Bool) → (send_on s c message).0.role ≡ c.role
    go [] = refl
    go (true ∷ s) = refl
    go (false ∷ s) = refl
