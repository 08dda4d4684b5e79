-- ===== src/Server/AddToken/Asked.antt =====
-- What the arguments of `add_token` of src/bin/g2mirror-server.rs ask for, as they are written.
use g2mirror.Prelude.{
  ◌≡◌, ◌≢◌, refl, ap, ◌∙◌, Bool, true, false, not, ◌&&◌, ◌||◌, List, [], ◌∷◌, ◌++◌, Option, none,
  some, is_some, Bytes, same, same→eq, ascii, Bool-cases, inl, inr, append_assoc, append-nil, arith,
  sym,
}
use g2mirror.Prelude.Results.{ok, ok_injective}
use g2mirror.Server.AddToken.{Request, starts_with_dash, request_from}

-- An argument, or a pair of arguments.
pub data Item : Type 0 where
  writes : Item
  launches_all : Item
  launches : Bytes → Item
  names : Bytes → Item

abbrev pub spell : List Item → List Bytes
spell [] = []
spell (writes ∷ items) = ascii "--writable" ∷ spell items
spell (launches_all ∷ items) = ascii "--launch-all" ∷ spell items
spell (launches preset ∷ items) = ascii "--launch" ∷ preset ∷ spell items
spell (names name ∷ items) = name ∷ spell items

abbrev pub any_writes : List Item → Bool
any_writes [] = false
any_writes (writes ∷ items) = true
any_writes (launches_all ∷ items) = any_writes items
any_writes (launches preset ∷ items) = any_writes items
any_writes (names name ∷ items) = any_writes items

abbrev pub any_all : List Item → Bool
any_all [] = false
any_all (writes ∷ items) = any_all items
any_all (launches_all ∷ items) = true
any_all (launches preset ∷ items) = any_all items
any_all (names name ∷ items) = any_all items

abbrev pub presets : List Item → List Bytes
presets [] = []
presets (writes ∷ items) = presets items
presets (launches_all ∷ items) = presets items
presets (launches preset ∷ items) = preset ∷ presets items
presets (names name ∷ items) = presets items

abbrev pub positional : List Item → List Bytes
positional [] = []
positional (writes ∷ items) = positional items
positional (launches_all ∷ items) = positional items
positional (launches preset ∷ items) = positional items
positional (names name ∷ items) = name ∷ positional items

-- A name does not look like a flag.
abbrev pub NoFlag : Bytes → Type 0
NoFlag [] = Unit
NoFlag (c ∷ cs) = c ≢ b'-'

abbrev pub NoFlags : List Item → Type 0
NoFlags [] = Unit
NoFlags (writes ∷ items) = NoFlags items
NoFlags (launches_all ∷ items) = NoFlags items
NoFlags (launches preset ∷ items) = NoFlags items
NoFlags (names name ∷ items) = NoFlag name × NoFlags items

abbrev pub listed : Option Bytes → List Bytes
listed none = []
listed (some name) = name ∷ []

-- What a request grows to by the arguments.
pub record Grows (before : Request) (args : List Bytes) (after : Request) : Type 0 where
  pub items : List Item
  pub spelled : args ≡ spell items
  pub no_flags : NoFlags items
  pub name : listed after.name ≡ listed before.name ++ positional items
  pub writable : after.writable ≡ (before.writable || any_writes items)
  pub launch_all : after.launch_all ≡ (before.launch_all || any_all items)
  pub launch_names : after.launch_names ≡ before.launch_names ++ presets items

dashless : (arg : Bytes) → starts_with_dash arg ≡ false → NoFlag arg
dashless [] h = tt
dashless (c ∷ cs) h = λ e. absurd (ground (arith, h, e))

nameless : (o : Option Bytes) → is_some o ≡ false → o ≡ none
nameless none h = refl
nameless (some a) h = absurd cc

module _ (r : Request) (arg : Bytes) (args : List Bytes) (after : Request) where
  writes-Grows :
      same arg (ascii "--writable") ≡ true
      → Grows (record r { writable = true }) args after
      → Grows r (arg ∷ args) after
  writes-Grows h g =
      let e = same→eq arg (ascii "--writable") h in
      record {
        items = writes ∷ g.items;
        spelled = λ i. e i ∷ g.spelled i;
        no_flags = g.no_flags;
        name = g.name;
        writable = let w = g.writable in ground (arith, w);
        launch_all = g.launch_all;
        launch_names = g.launch_names;
      }

  all-Grows :
      same arg (ascii "--launch-all") ≡ true
      → Grows (record r { launch_all = true }) args after
      → Grows r (arg ∷ args) after
  all-Grows h g =
      let e = same→eq arg (ascii "--launch-all") h in
      record {
        items = launches_all ∷ g.items;
        spelled = λ i. e i ∷ g.spelled i;
        no_flags = g.no_flags;
        name = g.name;
        writable = g.writable;
        launch_all = let w = g.launch_all in ground (arith, w);
        launch_names = g.launch_names;
      }

  launch-Grows :
      (preset : Bytes)
      → same arg (ascii "--launch") ≡ true
      → Grows (record r { launch_names = r.launch_names ++ preset ∷ [] }) args after
      → Grows r (arg ∷ preset ∷ args) after
  launch-Grows preset h g =
      let e = same→eq arg (ascii "--launch") h in
      record {
        items = launches preset ∷ g.items;
        spelled = λ i. e i ∷ preset ∷ g.spelled i;
        no_flags = g.no_flags;
        name = g.name;
        writable = g.writable;
        launch_all = g.launch_all;
        launch_names = g.launch_names ∙ append_assoc r.launch_names (preset ∷ []) (presets g.items);
      }

  name-Grows :
      (not (starts_with_dash arg) && not (is_some r.name)) ≡ true
      → Grows (record r { name = some arg }) args after
      → Grows r (arg ∷ args) after
  name-Grows h g =
      let e : listed r.name ≡ [] = ap listed (nameless r.name (ground (arith, h))) in
      record {
        items = names arg ∷ g.items;
        spelled = ap (λ rest. arg ∷ rest) g.spelled;
        no_flags = (dashless arg (ground (arith, h)), g.no_flags);
        name = rw e g.name;
        writable = g.writable;
        launch_all = g.launch_all;
        launch_names = g.launch_names;
      }

or_false : (b : Bool) → (b || false) ≡ b
or_false true = refl
or_false false = refl

-- No argument.
same-Grows : (r after : Request) → r ≡ after → Grows r [] after
same-Grows r after e =
    let e' : after ≡ r = sym e in
    record {
      items = [];
      spelled = refl;
      no_flags = tt;
      name = ap (λ q. listed q.name) e' ∙ sym (append-nil (listed r.name));
      writable = ap (λ q. q.writable) e' ∙ sym (or_false r.writable);
      launch_all = ap (λ q. q.launch_all) e' ∙ sym (or_false r.launch_all);
      launch_names = ap (λ q. q.launch_names) e' ∙ sym (append-nil r.launch_names);
    }

pub request_from-Grows :
    (r : Request) (args : List Bytes) (after : Request)
    → request_from r args ≡ ok after
    → Grows r args after
unfolding request_from
request_from-Grows r [] after = λ h. same-Grows r after (ok_injective h)
request_from-Grows r (arg ∷ []) after = elim (Bool-cases (same arg (ascii "--writable"))) [
  | inl w ↦
      rw (request_from, w)
        (λ h. writes-Grows r arg [] after w (same-Grows _ after (ok_injective h)))
  | inr w ↦
      rw (request_from, w)
        (elim (Bool-cases (same arg (ascii "--launch-all"))) [
          | inl a ↦ rw a (λ h. all-Grows r arg [] after a (same-Grows _ after (ok_injective h)))
          | inr a ↦ rw a (elim (Bool-cases (same arg (ascii "--launch"))) [
            | inl l ↦ rw l (λ h. absurd cc)
            | inr l ↦ rw l (elim (Bool-cases (not (starts_with_dash arg) && not (is_some r.name))) [
              | inl n ↦
                  rw n (λ h. name-Grows r arg [] after n (same-Grows _ after (ok_injective h)))
              | inr n ↦ rw n (λ h. absurd cc)
            ])
          ])
        ])
]
request_from-Grows r (arg ∷ next ∷ args) after = elim (Bool-cases (same arg (ascii "--writable"))) [
  | inl w ↦
      rw (request_from, w)
        (λ h. writes-Grows r arg (next ∷ args) after w (request_from-Grows _ (next ∷ args) after h))
  | inr w ↦
      rw (request_from, w)
        (elim (Bool-cases (same arg (ascii "--launch-all"))) [
          | inl a ↦ rw a (λ h.
              all-Grows r arg (next ∷ args) after a (request_from-Grows _ (next ∷ args) after h))
          | inr a ↦ rw a (elim (Bool-cases (same arg (ascii "--launch"))) [
            | inl l ↦
                rw l (λ h. launch-Grows r arg args after next l (request_from-Grows _ args after h))
            | inr l ↦ rw l (elim (Bool-cases (not (starts_with_dash arg) && not (is_some r.name))) [
              | inl n ↦ rw n (λ h.
                  name-Grows r arg (next ∷ args) after n
                    (request_from-Grows _ (next ∷ args) after h))
              | inr n ↦ rw n (λ h. absurd cc)
            ])
          ])
        ])
]
