-- ===== src/Session/View/Best.antt =====
-- Who sizes the view (`refresh_view` of src/main.rs): the first least of the viewing clients.
use g2mirror.Prelude.{
  ◌⊎◌, ◌≤◌, ◌<◌, if◌then◌else◌, ltb, subst, if_intro, ℕ, suc, ◌≡◌, refl, true, false, List, [], ◌∷◌,
  Option, none, some, get_elem?, Option-cases, All, arith, Bool-cases, inl, inr,
}
use g2mirror.Session.Client.{Role, host, viewer, is_host_role, is_host, Client, is_live_viewing}
use g2mirror.Session.View.{effective_rank, precedes, pick, best}

precedes_asym : (r : ℕ) (a b : Client) → precedes r a b ≡ true → precedes r b a ≡ false
unfolding precedes
precedes_asym r a b h = ground arith

precedes_irrefl : (r : ℕ) (a : Client) → precedes r a a ≡ false
unfolding precedes
precedes_irrefl r a = ground arith

precedes_trans :
    (r : ℕ) (a b c : Client)
    → precedes r a b ≡ false
    → precedes r b c ≡ false
    → precedes r a c ≡ false
unfolding precedes
precedes_trans r a b c h k = ground arith

-- No live viewing client of the list comes before `b`.
abbrev IsLeast : ℕ → Client → List Client → Type 0
IsLeast r b cs = All (λ c. is_live_viewing c ≡ true → precedes r c b ≡ false) cs

IsLeast-trans :
    (r : ℕ) (b c : Client) (cs : List Client)
    → precedes r b c ≡ false
    → IsLeast r b cs
    → IsLeast r c cs
IsLeast-trans r b c [] h l = tt
IsLeast-trans r b c (x ∷ cs) h (p, l) =
    (λ live. precedes_trans r x b c (p live) h, IsLeast-trans r b c cs h l)

idle-IsLeast :
    (r : ℕ) (b : Client) (cs : List Client)
    → All (λ c. is_live_viewing c ≡ false) cs
    → IsLeast r b cs
idle-IsLeast r b [] h = tt
idle-IsLeast r b (c ∷ cs) (idle, h) = (λ live. absurd (ground arith), idle-IsLeast r b cs h)

pub best-none :
    (r : ℕ) (cs : List Client) → best r cs ≡ none → All (λ c. is_live_viewing c ≡ false) cs
unfolding best
best-none r [] e = tt
best-none r (c ∷ cs) e = elim (Bool-cases (is_live_viewing c)) [
  | inl live ↦ absurd (ground arith)
  | inr idle ↦ (idle, best-none r cs (ground arith))
]

-- What `best` says of its choice.
abbrev IsBest : ℕ → Client → List Client → Type 0
IsBest r b cs = ((i : ℕ) × (get_elem? cs i ≡ some b)) × (is_live_viewing b ≡ true) × IsLeast r b cs

pick-IsBest :
    (r : ℕ) (c : Client) (cs : List Client) (o : Option Client)
    → is_live_viewing c ≡ true
    → (o ≡ none → All (λ x. is_live_viewing x ≡ false) cs)
    → ((b : Client) → o ≡ some b → IsBest r b cs)
    → IsBest r (pick r c o) (c ∷ cs)
unfolding pick
pick-IsBest r c cs none live idle later =
    ((0, refl), live, (λ _. precedes_irrefl r c, idle-IsLeast r c cs (idle refl)))
pick-IsBest r c cs (some b) live idle later =
    let ((i, at), viewing, least) = later b refl in
    if_intro (λ x. IsBest r x (c ∷ cs)) (precedes r b c) _ _
      (λ h. ((suc i, at), viewing, (λ _. precedes_asym r b c h, least)))
      (λ h. ((0, refl), live, (λ _. precedes_irrefl r c, IsLeast-trans r b c cs h least)))

best-IsBest : (r : ℕ) (cs : List Client) (b : Client) → best r cs ≡ some b → IsBest r b cs
unfolding best
best-IsBest r [] b e = absurd cc
best-IsBest r (c ∷ cs) b e = elim (Bool-cases (is_live_viewing c)) [
  | inl live ↦
      let chosen : pick r c (best r cs) ≡ b = ground arith in
      subst (λ x. IsBest r x (c ∷ cs)) chosen
        (pick-IsBest r c cs (best r cs) live (best-none r cs) (best-IsBest r cs))
  | inr idle ↦
      let ((i, at), viewing, least) = best-IsBest r cs b (ground arith) in
      ((suc i, at), viewing, (λ live. absurd (ground arith), least))
]

-- `b` is no later than `c`: it has the lower rank, or at equal rank came no later. A host-role
-- client has the host's rank.
abbrev pub rank_of : ℕ → Client → ℕ
rank_of r c = if is_host c then r else c.size_rank

abbrev pub IsNoLater : ℕ → Client → Client → Type 0
IsNoLater r b c = (rank_of r b < rank_of r c) ⊎ ((rank_of r b ≡ rank_of r c) × (b.id ≤ c.id))

pub effective_rank-rank_of : (r : ℕ) (c : Client) → effective_rank r c ≡ rank_of r c
unfolding effective_rank
effective_rank-rank_of r c = by_role c.role
  where
    by_role :
        (role : Role)
        → elim role [ host ↦ r | viewer ↦ c.size_rank ]
          ≡ (if is_host_role role then r else c.size_rank)
    by_role host = refl
    by_role viewer = refl

precedes-IsNoLater : (r : ℕ) (b c : Client) → precedes r c b ≡ false → IsNoLater r b c
unfolding precedes
precedes-IsNoLater r b c h =
    let rank_b = effective_rank-rank_of r b in
    let rank_c = effective_rank-rank_of r c in
    elim (Bool-cases (ltb (rank_of r b) (rank_of r c))) [
      | inl less ↦ inl (ground (arith, less))
      | inr more ↦
          inr (ground (arith, more, rank_b, rank_c, h), ground (arith, more, rank_b, rank_c, h))
    ]

IsLeast-IsNoLater :
    (r : ℕ) (b : Client) (cs : List Client)
    → IsLeast r b cs
    → All (λ c. is_live_viewing c ≡ true → IsNoLater r b c) cs
IsLeast-IsNoLater r b [] h = tt
IsLeast-IsNoLater r b (c ∷ cs) (p, h) =
    (λ live. precedes-IsNoLater r b c (p live), IsLeast-IsNoLater r b cs h)

-- `b` is one of the clients, it views, and none that views comes before it.
abbrev pub IsFirst : ℕ → Client → List Client → Type 0
IsFirst r b cs =
    ((i : ℕ) × (get_elem? cs i ≡ some b))
    × (is_live_viewing b ≡ true)
    × All (λ c. is_live_viewing c ≡ true → IsNoLater r b c) cs

-- Either no client views and no client is chosen, or one is chosen: a client of the session that
-- views, and that no other viewing one precedes by rank or, at equal rank, by arrival. A host-role
-- client has the host's rank.
pub best-IsFirst :
    (r : ℕ) (cs : List Client)
    → ((best r cs ≡ none) × All (λ c. is_live_viewing c ≡ false) cs)
      ⊎ ((b : Client) × (best r cs ≡ some b) × IsFirst r b cs)
best-IsFirst r cs = elim (Option-cases (best r cs)) [
  | inl e ↦ inl (e, best-none r cs e)
  | inr (b, e) ↦
      let (at, viewing, least) = best-IsBest r cs b e in
      inr (b, e, (at, viewing, IsLeast-IsNoLater r b cs least))
]
