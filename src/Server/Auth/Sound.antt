-- ===== src/Server/Auth/Sound.antt =====
-- Who gets past `authenticate_device` of src/bin/g2mirror-server.rs.
use Prim.Native.Nat.{bit_or, bit_xor}
use g2mirror.Prelude.{
  is_empty, ℕ, ◌<◌, ◌≡◌, ◌↔◌, refl, ap, ◌∙◌, subst, true, ◌&&◌, List, [], ◌∷◌, ◌++◌, Option, none,
  some, Bytes, All, length, ◌==◌, same, same_refl, same→eq, ascii, Bool-cases, inl, inr, if_intro,
  arith,
}
use g2mirror.Prelude.Bits.{or-lt, xor-lt, or_zero, xor_zero, xor_same}
use g2mirror.Server.Config.{TokenConfig, Config, tokens, server_name}
use g2mirror.Server.Protocol.{protocol_version, DeviceInit}
use g2mirror.Server.Auth.{
  is_space, is_space_of_two, is_space_of_three, hex, fold_differences, constant_time_eq, trim_start,
  trim_end, to_ascii_lowercase, token_matches, find_token, accepted, InitReply, answer_init,
  authenticate_device,
}

abbrev pub AreBytes : Bytes → Type 0
AreBytes = All (λ b. b < 256)

-- No difference was found, and none had been.
fold-zero :
    (acc : ℕ) (xs ys : Bytes)
    → acc < 256
    → AreBytes xs
    → AreBytes ys
    → length xs ≡ length ys
    → fold_differences acc xs ys ≡ 0
    → (acc ≡ 0) × (xs ≡ ys)
unfolding fold_differences
fold-zero acc [] [] a h k l e = (e, refl)
fold-zero acc [] (y ∷ ys) a h k l e = absurd (omega arith)
fold-zero acc (x ∷ xs) [] a h k l e = absurd (omega arith)
fold-zero acc (x ∷ xs) (y ∷ ys) a (hx, h) (ky, k) l e =
    let z = xor-lt x y hx ky in
    let (nowhere, same) =
      fold-zero (bit_or acc (bit_xor x y)) xs ys (or-lt acc (bit_xor x y) a z) h k (omega arith)
        e in
    let (before, here) = or_zero acc (bit_xor x y) a z nowhere in
    let first = xor_zero x y hx ky here in (before, λ i. first i ∷ same i)

fold-same : (xs : Bytes) → AreBytes xs → fold_differences 0 xs xs ≡ 0
unfolding fold_differences
fold-same [] h = refl
fold-same (x ∷ xs) (hx, h) =
    ap (λ n. fold_differences (bit_or 0 n) xs xs) (xor_same x x hx hx refl) ∙ fold-same xs h

-- The comparison that looks at every byte is equality.
pub constant_time_eq_iff :
    (a b : Bytes) → AreBytes a → AreBytes b → (constant_time_eq a b ≡ true) ↔ (a ≡ b)
unfolding constant_time_eq
constant_time_eq_iff a b h k = (
  λ e. (fold-zero 0 a b (omega arith) h k (ground (arith, e)) (ground (arith, e))).1,
  λ e.
      subst (λ c. (length a == length c && fold_differences 0 a c == 0) ≡ true) e
        (ground (arith, fold-same a h)),
)

hex-AreBytes : (bs : Bytes) → AreBytes bs → AreBytes (hex bs)
unfolding hex
hex-AreBytes [] h = tt
hex-AreBytes (b ∷ bs) (k, h) = (ground arith, (ground arith, hex-AreBytes bs h))

lowercase-AreBytes : (bs : Bytes) → AreBytes bs → AreBytes (to_ascii_lowercase bs)
unfolding to_ascii_lowercase
lowercase-AreBytes [] h = tt
lowercase-AreBytes (b ∷ bs) (k, h) = (ground arith, lowercase-AreBytes bs h)

trim_start-AreBytes : (bs : Bytes) → AreBytes bs → AreBytes (trim_start bs)
unfolding trim_start
trim_start-AreBytes [] h = tt
trim_start-AreBytes (b ∷ []) h = if_intro AreBytes (is_space b) _ _ (λ _. tt) (λ _. h)
trim_start-AreBytes (b ∷ c ∷ []) h =
    if_intro AreBytes (is_space b) _ _ (λ _. trim_start-AreBytes (c ∷ []) h.1)
      (λ _. if_intro AreBytes (is_space_of_two b c) _ _ (λ _. tt) (λ _. h))
trim_start-AreBytes (b ∷ c ∷ d ∷ bs) h =
    if_intro AreBytes (is_space b) _ _ (λ _. trim_start-AreBytes (c ∷ d ∷ bs) h.1)
      (λ _.
        if_intro AreBytes (is_space_of_two b c) _ _ (λ _. trim_start-AreBytes (d ∷ bs) h.1.1)
          (λ _.
            if_intro AreBytes (is_space_of_three b c d) _ _ (λ _. trim_start-AreBytes bs h.1.1.1)
              (λ _. h)))

trim_end-AreBytes : (bs : Bytes) → AreBytes bs → AreBytes (trim_end bs)
unfolding trim_end
trim_end-AreBytes [] h = tt
trim_end-AreBytes (b ∷ bs) (k, h) =
    if_intro AreBytes (is_empty (trim_start (b ∷ bs))) _ _ (λ _. tt)
      (λ _. (k, trim_end-AreBytes bs h))

-- The hash that is stored for a token, as it is compared.
abbrev pub normal : TokenConfig → Bytes
normal t = to_ascii_lowercase (trim_end (trim_start t.token_hash))

All-middle :
    (P : TokenConfig → Type 0) (before after : List TokenConfig) {t : TokenConfig}
    → All P (before ++ t ∷ after)
    → P t
All-middle P [] after h = h.0
All-middle P (b ∷ before) after h = All-middle P before after h.1

module _ (sha256 : Bytes → Bytes) (digests : (b : Bytes) → AreBytes (sha256 b))
    (parse_init : Bytes → Option DeviceInit) (nodename : Bytes) where
  token_matches_iff :
      (token : Bytes) (t : TokenConfig)
      → AreBytes t.token_hash
      → (token_matches sha256 token t.token_hash ≡ true) ↔ (hex (sha256 token) ≡ normal t)
  unfolding token_matches
  token_matches_iff token t h =
      constant_time_eq_iff _ _ (hex-AreBytes (sha256 token) (digests token))
        (lowercase-AreBytes _ (trim_end-AreBytes _ (trim_start-AreBytes t.token_hash h)))

  -- `t` is one of the tokens, and the digest of `secret` is what is stored for it.
  abbrev pub Holds : Bytes → List TokenConfig → TokenConfig → Type 0
  Holds secret ts t =
      (before : List TokenConfig) × (after : List TokenConfig) × (ts ≡ before ++ t ∷ after)
      × (hex (sha256 secret) ≡ normal t)

  find_token-Holds :
      (secret : Bytes) (ts : List TokenConfig) {t : TokenConfig}
      → All (λ (t : TokenConfig). AreBytes t.token_hash) ts
      → find_token sha256 secret ts ≡ some t
      → Holds secret ts t
  unfolding find_token
  find_token-Holds secret [] h e = absurd cc
  find_token-Holds secret (s ∷ ts) {t} (k, h) e =
      elim (Bool-cases (token_matches sha256 secret s.token_hash)) [
        | inl yes' ↦
            let same : s ≡ t = ground (arith, e, yes') in
            ([], ts, (λ i. same i ∷ ts), (token_matches_iff secret s k).0 yes' ∙ ap normal same)
        | inr no' ↦
            let later : find_token sha256 secret ts ≡ some t = ground (arith, e, no') in
            let (before, after, there, matches) = find_token-Holds secret ts h later in
            (s ∷ before, after, ap (◌∷◌ s) there, matches)
      ]

  find_token-found :
      (secret : Bytes) (before after : List TokenConfig) (t : TokenConfig)
      → AreBytes t.token_hash
      → hex (sha256 secret) ≡ normal t
      → (s : TokenConfig) × (find_token sha256 secret (before ++ t ∷ after) ≡ some s)
  unfolding find_token
  find_token-found secret [] after t k e = (t, rw ((token_matches_iff secret t k).1 e) refl)
  find_token-found secret (b ∷ before) after t k e =
      elim (Bool-cases (token_matches sha256 secret b.token_hash)) [
        | inl first ↦ (b, rw first refl)
        | inr not_first ↦ rw not_first (find_token-found secret before after t k e)
      ]

  answer_init-accepted :
      (config : Config) (init i : DeviceInit) (o : Option TokenConfig) (t : TokenConfig)
      (reply : InitReply)
      → answer_init sha256 parse_init nodename config init o ≡ accepted i t reply
      → (i ≡ init)
        × (same init.msg_type (ascii "init") ≡ true)
        × (init.version ≡ protocol_version)
        × (o ≡ some t)
        × (reply.readonly ≡ t.readonly)
  unfolding answer_init
  answer_init-accepted config init i none t reply e = absurd cc
  answer_init-accepted config init i (some token) t reply e = (
    ground (arith, e),
    ground (arith, e),
    ground (arith, e),
    ground (arith, e),
    ground (arith, e),
  )

  abbrev reply_to : Config → TokenConfig → InitReply
  reply_to config s = record {
    version = protocol_version;
    readonly = s.readonly;
    server_name = server_name nodename config;
  }

  answer_init-accepts :
      (config : Config) (init : DeviceInit) (s : TokenConfig)
      → init.msg_type ≡ ascii "init"
      → init.version ≡ protocol_version
      → answer_init sha256 parse_init nodename config init (some s)
        ≡ accepted init s (reply_to config s)
  unfolding answer_init
  answer_init-accepts config init s kind version =
      let is_init : same init.msg_type (ascii "init") ≡ true =
        ap (λ k. same k (ascii "init")) kind ∙ same_refl (ascii "init") in
      ground (arith, is_init, version)

  -- A first message that parses as an init message, digests and stored hashes that are bytes.
  -- Whoever is accepted is of the message's secret: the message is of type `init` and of the
  -- protocol's version, the token is one of the configuration's, its stored hash, trimmed and in
  -- lower case, is the digest of the secret in hexadecimal, and the reply has the token's access.
  -- Conversely such a message with the secret of any of the tokens is accepted.
  pub authenticate_device-exact :
      (config : Config) (message : Bytes) (init : DeviceInit)
      → parse_init message ≡ some init
      → All (λ (t : TokenConfig). AreBytes t.token_hash) (tokens config)
      → ((i : DeviceInit) (t : TokenConfig) (reply : InitReply)
          → authenticate_device sha256 parse_init nodename config (some message)
            ≡ accepted i t reply
          → (i ≡ init)
            × (init.msg_type ≡ ascii "init")
            × (init.version ≡ protocol_version)
            × Holds init.auth_token (tokens config) t
            × (reply.readonly ≡ t.readonly))
        × ((t : TokenConfig)
            → init.msg_type ≡ ascii "init"
            → init.version ≡ protocol_version
            → Holds init.auth_token (tokens config) t
            → (s : TokenConfig) × (reply : InitReply) × (authenticate_device sha256 parse_init
                  nodename config
                  (some message)
                ≡ accepted init s reply))
  unfolding authenticate_device
  authenticate_device-exact config message init parses bytes = (
    λ i t reply e.
        let e' = rw (parses, authenticate_device) at e in
        let (same_init, kind, version, there, access) =
          answer_init-accepted config init i _ t reply e' in
        (
          same_init,
          same→eq _ _ kind,
          version,
          find_token-Holds init.auth_token (tokens config) bytes there,
          access,
        ),
    λ t kind version (before, after, there, matches).
        let hash =
          All-middle (λ (t : TokenConfig). AreBytes t.token_hash) before after
            (subst (All (λ (t : TokenConfig). AreBytes t.token_hash)) there bytes) in
        let (s, found) = find_token-found init.auth_token before after t hash matches in
        let known = ap (find_token sha256 init.auth_token) there ∙ found in
        (
          s,
          reply_to config s,
          rw (parses, authenticate_device)
              (ap (answer_init sha256 parse_init nodename config init) known
                ∙ answer_init-accepts config init s kind version),
        ),
  )
