-- ===== src/Data/Bounds.antt =====
-- data.c: the length stays between 0 and `DATA_MAXLEN`, and the packet keeps its layout.
use rcom.Base.{
  ℕ, ◌+◌, ◌-◌, ◌≤◌, ◌≡◌, refl, sym, ◌∙◌, ℤ, pos, negsuc, Option, none, some, [], ◌∷◌, ◌++◌, arith,
  ltb, leb, if◌then◌else◌, length, take, drop, Bytes, length-append, length-take, length-drop,
  length-set, Bool-cases, leb→le, leb→lt, inl, inr, subst,
}
use rcom.Data.{
  Packet, Data, data_maxlen, packet_maxlen, packet_bytes, packet_of, payload_len, new_data,
  set_data, set_len, append_zero, append_zero_at, vprintf, udp_read, poke,
}

pub record IsLaidOut (p : Packet) : Type 0 where
  pub seqnum_size : length p.seqnum ≡ 4
  pub timestamp_size : length p.timestamp ≡ 8
  pub payload_size : length p.payload ≡ data_maxlen

abbrev pub InRange : ℤ → Type 0
InRange (pos n) = n ≤ data_maxlen
InRange (negsuc n) = ⊥

pub record IsValid (m : Data) : Type 0 where
  pub layout : IsLaidOut m.p
  pub range : InRange m.len

pub new-IsValid : IsValid new_data
unfolding new_data
new-IsValid = omega arith

-- `data_set_data` keeps a valid packet valid whenever it is defined: for any source and any length.
pub set_data-IsValid :
    {m m' : Data} (s : Option Bytes) (len : ℤ) → IsValid m → set_data m s len ≡ some m' → IsValid m'
unfolding set_data
set_data-IsValid none len v e = ground arith
set_data-IsValid (some s) (negsuc n) v e = cc
set_data-IsValid {m} {m'} (some s) (pos n) v e =
    let n' = (if ltb data_maxlen n then data_maxlen else n) in
    ground (
      arith,
      v.layout,
      length-append (take n' s) (drop n' m.p.payload),
      length-take n' s,
      length-drop n' m.p.payload,
    )

-- `data_set_len` brings any `int` into range.
pub set_len-IsValid : (m : Data) (len : ℤ) → IsLaidOut m.p → IsValid (set_len m len)
unfolding set_len
set_len-IsValid m (pos n) l = ground arith
set_len-IsValid m (negsuc n) l = record { layout = l; range = omega arith }

pub poke-IsLaidOut : (m : Data) (i b : ℕ) → IsLaidOut m.p → IsLaidOut (poke m i b)
poke-IsLaidOut m i b l = record {
  seqnum_size = l.seqnum_size;
  timestamp_size = l.timestamp_size;
  payload_size = length-set m.p.payload i b ∙ l.payload_size;
}

append_zero_at-IsValid :
    (m : Data) (len : ℤ)
    → m.len ≡ len
    → IsValid m
    → (m' : Data) × (append_zero_at m len ≡ some m') × IsValid m'
unfolding append_zero_at
append_zero_at-IsValid m (negsuc n) e v = absurd (subst InRange e v.range)
append_zero_at-IsValid m (pos n) e v =
    let r : InRange (pos n) = subst InRange e v.range in
    elim (Bool-cases (leb n (data_maxlen - 1))) [
      | inl h ↦ (
        record { len = pos (n + 1); p = poke m n 0 },
        rw h,
        record {
          layout = poke-IsLaidOut m n 0 v.layout;
          range = omega (arith, leb→le n (data_maxlen - 1) h);
        },
      )
      | inr h ↦ (
        record m { p = poke m (data_maxlen - 1) 0 },
        rw h,
        record {
          layout = poke-IsLaidOut m (data_maxlen - 1) 0 v.layout;
          range = subst InRange (sym e) r;
        },
      )
    ]

-- `data_append_zero` on a valid packet is defined, and leaves a valid packet.
pub append_zero-IsValid :
    {m : Data} → IsValid m → (m' : Data) × (append_zero m ≡ some m') × IsValid m'
unfolding append_zero
append_zero-IsValid {m} v = append_zero_at-IsValid m m.len refl v

length-overwrite :
    (front block : Bytes)
    → length front ≤ length block
    → length (front ++ drop (length front) block) ≡ length block
length-overwrite front block h =
    omega (arith, length-append front (drop (length front) block), length-drop (length front) block)

-- the text and zero that `vsnprintf` stores
abbrev stored : Bytes → Bytes
stored text = take (data_maxlen - 1) text ++ (0 ∷ [])

length-stored : (text : Bytes) → length (stored text) ≤ data_maxlen
length-stored text = omega (
  arith,
  length-append (take (data_maxlen - 1) text) (0 ∷ []),
  length-take (data_maxlen - 1) text,
)

-- `data_vprintf` keeps a valid packet valid, if `vsnprintf` does not fail.
pub vprintf-IsValid : {m : Data} (text : Bytes) → IsValid m → IsValid (vprintf m (some text)).1
unfolding vprintf
vprintf-IsValid {m} text v =
    let l : IsLaidOut (record {
      seqnum = m.p.seqnum;
      timestamp = m.p.timestamp;
      payload = stored text ++ drop (length (stored text)) m.p.payload;
    }) =
      record {
        seqnum_size = v.layout.seqnum_size;
        timestamp_size = v.layout.timestamp_size;
        payload_size =
            length-overwrite (stored text) m.p.payload
              (omega (arith, length-stored text, v.layout.payload_size))
            ∙ v.layout.payload_size;
      } in
    elim (Bool-cases (leb data_maxlen (length text))) [
      | inl h ↦ rw h (record { layout = l; range = omega arith })
      | inr h ↦
          rw h (record { layout = l; range = omega (arith, leb→lt data_maxlen (length text) h) })
    ]

-- Whatever datagram comes in, `udp_socket_read` leaves a valid packet.
pub udp_read-IsValid : {m : Data} (bytes : Option Bytes) → IsValid m → IsValid (udp_read m bytes).1
unfolding udp_read
udp_read-IsValid none v = v
udp_read-IsValid {m} (some bytes) v =
    let got = take packet_maxlen bytes in
    let block = got ++ drop (length got) (packet_bytes m.p) in
    let size : length block ≡ packet_maxlen = omega (
      arith,
      v.layout,
      length-append got (drop (length got) (packet_bytes m.p)),
      length-drop (length got) (packet_bytes m.p),
      length-append m.p.seqnum (m.p.timestamp ++ m.p.payload),
      length-append m.p.timestamp m.p.payload,
      length-take packet_maxlen bytes,
    ) in
    set_len-IsValid (record m { p = packet_of block }) (payload_len (length got))
      (record {
        seqnum_size = omega (arith, size, length-take 4 block);
        timestamp_size = omega (arith, size, length-take 8 (drop 4 block), length-drop 4 block);
        payload_size = omega (arith, size, length-drop 12 block);
      })
