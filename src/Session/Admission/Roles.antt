-- ===== src/Session/Admission/Roles.antt =====
-- The host role of a headless session (`run_async` of src/main.rs): at most one client holds it.
use g2mirror.Prelude.{
  ℕ, suc, ◌+◌, ◌≤◌, ◌<◌, ◌≡◌, refl, subst, Bool, true, false, ◌&&◌, List, [], ◌∷◌, ◌++◌, Option,
  none, some, Bytes, any, keep, length, if_intro, if◌then◌else◌, arith, Bool-cases, Option-cases,
  inl, inr,
}
use g2mirror.Session.Client.{Client, Role, title, send, is_host, is_host_role, is_live_host}
use g2mirror.Session.Client.Deliver.{send-role}
use g2mirror.Session.View.{MirrorModel}
use g2mirror.Session.Handler.{Init, Session}
use g2mirror.Session.Admission.{reject, displace, described, welcome, admit}

-- How many live clients have the host role.
abbrev pub holders : List Client → ℕ
holders cs = length (keep is_live_host cs)

holders_cons :
    (c : Client) (cs : List Client)
    → holders (c ∷ cs) ≡ (if is_live_host c then suc (holders cs) else holders cs)
holders_cons c cs = elim (Bool-cases (is_live_host c)) [
  | inl e ↦ rw (holders, e) refl
  | inr e ↦ rw (holders, e) refl
]

holders_append :
    (cs : List Client) (p : Client)
    → holders (cs ++ p ∷ []) ≡ holders cs + (if is_live_host p then 1 else 0)
holders_append [] p = ground (arith, holders_cons p [])
holders_append (c ∷ cs) p =
    ground (arith, holders_append cs p, holders_cons c cs, holders_cons c (cs ++ p ∷ []))

holders_none : (cs : List Client) → any is_live_host cs ≡ false → holders cs ≡ 0
holders_none [] h = refl
holders_none (c ∷ cs) h = ground (arith, holders_none cs, holders_cons c cs)

displace-holders : (cs : List Client) → holders (displace cs) ≡ 0
unfolding displace
displace-holders [] = refl
displace-holders (c ∷ cs) =
    let ih = displace-holders cs in
    if_intro (λ (x : Client). holders (x ∷ displace cs) ≡ 0) (is_host c) _ _ (λ _. ih)
      (λ other. ground (arith, ih, other, holders_cons c (displace cs)))

-- At most one, and none but for a client of the host role.
abbrev pub weight : Role → ℕ
weight role = if is_host_role role then 1 else 0

append-holders :
    (cs : List Client) (p : Client) → holders (cs ++ p ∷ []) ≤ holders cs + weight p.role
append-holders cs p = ground (arith, holders_append cs p)

welcome-holders :
    (t : Option Bytes) (p : Client) (cs : List Client)
    → holders (welcome t p cs) ≤ holders cs + weight p.role
unfolding welcome
welcome-holders none p cs = append-holders cs p
welcome-holders (some t) p cs =
    let p' = (send p (title t)).0 in
    let joined : holders (cs ++ p' ∷ []) ≤ holders cs + weight p.role =
      subst (λ r. holders (cs ++ p' ∷ []) ≤ holders cs + weight r) (send-role (title t) p)
        (append-holders cs p') in
    if_intro (λ (v : List Client). holders v ≤ holders cs + weight p.role) (send p (title t)).1 _ _
      (λ _. joined) (λ _. omega arith)

-- What the checks say of a client that they let pass.
pub reject-none :
    (headless held : Bool) (fields : Init)
    → reject headless held fields ≡ none
    → (0 < fields.width)
      × (0 < fields.height)
      × (is_host_role fields.role ≡ true → headless ≡ true)
      × (is_host_role fields.role ≡ true → held ≡ true → fields.force ≡ true)
unfolding reject
reject-none headless held fields e = ground arith

module _ (mm : MirrorModel) where
  -- Whoever connects and whatever its init message says, a session in which at most one live client
  -- holds the host role has at most one afterwards.
  pub admit-holders :
      (s : Session mm) (p : Client) (fields : Init)
      → holders s.clients.viewers ≤ 1
      → holders (admit mm s p fields).clients.viewers ≤ 1
  unfolding admit described
  admit-holders s p fields h =
      let viewers = s.clients.viewers in
      let held = any is_live_host viewers in
      elim (Option-cases (reject s.headless held fields)) [
        | inr (e, r) ↦ rw (admit, r) h
        | inl r ↦
            rw (admit, r)
              (omega (
                arith,
                welcome-holders (mm.title s.clients.mirror) (described p fields)
                    (if is_host_role fields.role && held then displace viewers else viewers),
                stays viewers fields.role h,
              ))
      ]
    where
      stays :
          (cs : List Client) (role : Role)
          → holders cs ≤ 1
          → holders (if is_host_role role && any is_live_host cs then displace cs else cs)
              + weight role
            ≤ 1
      stays cs role h =
          if_intro (λ (v : List Client). holders v + weight role ≤ 1)
            (is_host_role role && any is_live_host cs) _ _
            (λ _. ground (arith, displace-holders cs))
            (λ free. ground (arith, free, h, holders_none cs))
