-- ===== src/Gateway/FrameAad/Binding.antt =====
-- gateway/frame.go: the associated data binds every field of the frame's header.
use harness_platform_monorep.Prelude.{
  ℕ, zero, suc, ◌/◌, ◌%◌, ◌^◌, ◌<◌, ◌≡◌, refl, sym, ap, ◌∙◌, some, List, [], ◌∷◌, ◌++◌, arith,
  length, replicate, length-append, text,
}
use native.Mathlib.Nat.{pow-suc}
use harness_platform_monorep.Gateway.FrameAad.{WireFrame, put_uint, layout, frame_aad}

length-put_uint : (w value : ℕ) → length (put_uint w value) ≡ w
unfolding put_uint
length-put_uint zero value = refl
length-put_uint (suc w) value = ground (
  arith,
  length-append (put_uint w (value / 256)) ((value % 256) ∷ []),
  length-put_uint w (value / 256),
)

-- Lists that begin with parts of one length.
split : (xs ys us vs : List ℕ) → length xs ≡ length ys → xs ++ us ≡ ys ++ vs → (xs ≡ ys) × (us ≡ vs)
split [] [] us vs n h = (refl, h)
split [] (y ∷ ys) us vs n h = absurd (omega arith)
split (x ∷ xs) [] us vs n h = absurd (omega arith)
split (x ∷ xs) (y ∷ ys) us vs n h =
    let hd : x ≡ y = ap (λ l. elim l [ [] ↦ x | a ∷ rest ↦ a ]) h in
    let tl : xs ++ us ≡ ys ++ vs = ap (λ l. elim l [ [] ↦ us | a ∷ rest ↦ rest ]) h in
    let (e, r) = split xs ys us vs (omega arith) tl in ((cc), r)

below : (w n : ℕ) → n < 256 ^ suc w → n / 256 < 256 ^ w
below w n h = omega (arith, pow-suc 256 w)

put_uint-injective : (w m n : ℕ) → m < 256 ^ w → n < 256 ^ w → put_uint w m ≡ put_uint w n → m ≡ n
unfolding put_uint
put_uint-injective zero m n a b h = omega arith
put_uint-injective (suc w) m n a b h =
    let (high, low) =
      split (put_uint w (m / 256)) (put_uint w (n / 256)) ((m % 256) ∷ []) ((n % 256) ∷ [])
        (length-put_uint w (m / 256) ∙ sym (length-put_uint w (n / 256))) h in
    let same = put_uint-injective w (m / 256) (n / 256) (below w m a) (below w n b) high in
    let last : m % 256 ≡ n % 256 = ap (λ l. elim l [ [] ↦ 0 | d ∷ rest ↦ d ]) low in
    omega (arith, same, last)

-- The numbers fit the types of the message's fields.
pub record IsWire (f : WireFrame) : Type 0 where
  pub flags : f.flags < 256 ^ 4
  pub sequence : f.sequence < 256 ^ 8
  pub key_generation : f.key_generation < 256 ^ 8
  pub created_at_ms : f.created_at_ms < 256 ^ 8

-- The headers agree: in every identifier and number, in the suite and the type modulo 2 ^ 16, the
-- direction modulo 2 ^ 8, and the ciphertext's length modulo 2 ^ 32.
pub record IsSameHeader (f g : WireFrame) : Type 0 where
  pub crypto_suite_id : f.crypto_suite_id % 65536 ≡ g.crypto_suite_id % 65536
  pub frame_type : f.frame_type % 65536 ≡ g.frame_type % 65536
  pub flags : f.flags ≡ g.flags
  pub message_id : f.message_id ≡ g.message_id
  pub channel_id : f.channel_id ≡ g.channel_id
  pub session_id : f.session_id ≡ g.session_id
  pub sender_endpoint_id : f.sender_endpoint_id ≡ g.sender_endpoint_id
  pub receiver_endpoint_id : f.receiver_endpoint_id ≡ g.receiver_endpoint_id
  pub direction : f.direction % 256 ≡ g.direction % 256
  pub sequence : f.sequence ≡ g.sequence
  pub key_generation : f.key_generation ≡ g.key_generation
  pub key_id : f.key_id ≡ g.key_id
  pub created_at_ms : f.created_at_ms ≡ g.created_at_ms
  pub size : length f.ciphertext % 4294967296 ≡ length g.ciphertext % 4294967296

record HasIds (f : WireFrame) : Type 0 where
  message_id : length f.message_id ≡ 16
  channel_id : length f.channel_id ≡ 16
  session_id : length f.session_id ≡ 16
  sender_endpoint_id : length f.sender_endpoint_id ≡ 16
  receiver_endpoint_id : length f.receiver_endpoint_id ≡ 16
  key_id : length f.key_id ≡ 16

frame_aad_cases :
    (f : WireFrame) (aad : List ℕ) → frame_aad f ≡ some aad → HasIds f × (layout f ≡ aad)
unfolding frame_aad
frame_aad_cases f aad h = ground arith

-- Equal beginnings of two lists that begin with numbers of a width.
split_uint :
    (w m n : ℕ) (us vs : List ℕ)
    → m < 256 ^ w
    → n < 256 ^ w
    → put_uint w m ++ us ≡ put_uint w n ++ vs
    → (m ≡ n) × (us ≡ vs)
split_uint w m n us vs a b h =
    let (e, r) =
      split (put_uint w m) (put_uint w n) us vs (length-put_uint w m ∙ sym (length-put_uint w n))
        h in
    (put_uint-injective w m n a b e, r)

layout-IsSameHeader :
    (f g : WireFrame)
    → HasIds f
    → HasIds g
    → IsWire f
    → IsWire g
    → layout f ≡ layout g
    → IsSameHeader f g
unfolding layout
layout-IsSameHeader f g i j a b h =
    let (_, h1) = split (text "AWP1") (text "AWP1") _ _ refl h in
    let (_, h2) = split (put_uint 2 1) (put_uint 2 1) _ _ refl h1 in
    let (_, h3) = split (put_uint 2 0) (put_uint 2 0) _ _ refl h2 in
    let (suite, h4) = split_uint 2 _ _ _ _ (omega arith) (omega arith) h3 in
    let (type, h5) = split_uint 2 _ _ _ _ (omega arith) (omega arith) h4 in
    let (flags, h6) = split_uint 4 _ _ _ _ a.flags b.flags h5 in
    let (message, h7) = split _ _ _ _ (i.message_id ∙ sym j.message_id) h6 in
    let (channel, h8) = split _ _ _ _ (i.channel_id ∙ sym j.channel_id) h7 in
    let (session, h9) = split _ _ _ _ (i.session_id ∙ sym j.session_id) h8 in
    let (sender, h10) = split _ _ _ _ (i.sender_endpoint_id ∙ sym j.sender_endpoint_id) h9 in
    let (receiver, h11) = split _ _ _ _ (i.receiver_endpoint_id ∙ sym j.receiver_endpoint_id) h10 in
    let (direction, h12) =
      split ((f.direction % 256) ∷ replicate 7 0) ((g.direction % 256) ∷ replicate 7 0) _ _ refl
        h11 in
    let (sequence, h13) = split_uint 8 _ _ _ _ a.sequence b.sequence h12 in
    let (generation, h14) = split_uint 8 _ _ _ _ a.key_generation b.key_generation h13 in
    let (key, h15) = split _ _ _ _ (i.key_id ∙ sym j.key_id) h14 in
    let (created, h16) = split_uint 8 _ _ _ _ a.created_at_ms b.created_at_ms h15 in
    record {
      crypto_suite_id = suite;
      frame_type = type;
      flags = flags;
      message_id = message;
      channel_id = channel;
      session_id = session;
      sender_endpoint_id = sender;
      receiver_endpoint_id = receiver;
      direction = ap (λ l. elim l [ [] ↦ 0 | d ∷ rest ↦ d ]) direction;
      sequence = sequence;
      key_generation = generation;
      key_id = key;
      created_at_ms = created;
      size = (split_uint 4 _ _ _ _ (omega arith) (omega arith) h16).0;
    }

-- The associated data binds the header: two messages off the wire with the same associated data
-- agree in every identifier and number, in the suite and the type modulo 2 ^ 16, the direction
-- modulo 2 ^ 8, and the length of the ciphertext modulo 2 ^ 32.
pub frame_aad-IsSameHeader :
    (f g : WireFrame) (aad : List ℕ)
    → IsWire f
    → IsWire g
    → frame_aad f ≡ some aad
    → frame_aad g ≡ some aad
    → IsSameHeader f g
frame_aad-IsSameHeader f g aad a b h k =
    let (i, p) = frame_aad_cases f aad h in
    let (j, q) = frame_aad_cases g aad k in layout-IsSameHeader f g i j a b (p ∙ sym q)

length-layout : (f : WireFrame) → HasIds f → length (layout f) ≡ 148
unfolding layout
length-layout f i = simp (
  length-append, length-put_uint, i.message_id, i.channel_id, i.session_id, i.sender_endpoint_id,
  i.receiver_endpoint_id, i.key_id,
)

-- The associated data has the 148 bytes that `EncryptedFrame.Validate` asks for.
pub length-frame_aad : (f : WireFrame) (aad : List ℕ) → frame_aad f ≡ some aad → length aad ≡ 148
length-frame_aad f aad h = let (i, p) = frame_aad_cases f aad h in rw (sym p) (length-layout f i)
