-- ===== src/Session/Admission/Sizes.antt =====
-- Who is admitted has a size (`run_async` of src/main.rs).
use g2mirror.Prelude.{
  ◌&&◌, List, [], ◌∷◌, Option, none, some, Bytes, any, All, All-append, if_intro, Option-cases, inl,
  inr,
}
use g2mirror.Session.Client.{
  Client, title, error, taken_over, send, is_host, is_host_role, is_live_host,
}
use g2mirror.Session.View.{MirrorModel}
use g2mirror.Session.Handler.{Init, Session}
use g2mirror.Session.Handler.Sizes.{IsSized, send-IsSized}
use g2mirror.Session.Admission.{reject, displace, described, welcome, admit}
use g2mirror.Session.Admission.Roles.{reject-none}

displace-IsSized : (cs : List Client) → All IsSized cs → All IsSized (displace cs)
unfolding displace
displace-IsSized [] h = tt
displace-IsSized (c ∷ cs) (z, h) = (
  if_intro IsSized (is_host c) _ _ (λ _. send-IsSized (error taken_over) c z) (λ _. z),
  displace-IsSized cs h,
)

welcome-IsSized :
    (t : Option Bytes) (p : Client) (cs : List Client)
    → IsSized p
    → All IsSized cs
    → All IsSized (welcome t p cs)
unfolding welcome
welcome-IsSized none p cs z h = All-append IsSized cs (p ∷ []) h (z, tt)
welcome-IsSized (some t) p cs z h =
    if_intro (All IsSized) (send p (title t)).1 _ _
      (λ _. All-append IsSized cs ((send p (title t)).0 ∷ []) h (send-IsSized (title t) p z, tt))
      (λ _. h)

module _ (mm : MirrorModel) where
  -- Whatever an init message says, if all viewers have a size then all have one afterwards.
  pub admit-IsSized :
      (s : Session mm) (p : Client) (fields : Init)
      → All IsSized s.clients.viewers
      → All IsSized (admit mm s p fields).clients.viewers
  unfolding admit described
  admit-IsSized s p fields h =
      let held = any is_live_host s.clients.viewers in
      elim (Option-cases (reject s.headless held fields)) [
        | inr (e, r) ↦ rw (admit, r) h
        | inl r ↦
            let (w, t, _, _) = reject-none s.headless held fields r in
            rw (admit, r)
              (welcome-IsSized (mm.title s.clients.mirror) (described p fields) _ (w, t)
                (if_intro (All IsSized) (is_host_role fields.role && held) _ _
                  (λ _. displace-IsSized s.clients.viewers h) (λ _. h)))
      ]
