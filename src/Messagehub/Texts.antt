-- ===== src/Messagehub/Texts.antt =====
-- librcom/src/messagehub.c: the calls that format a text before they broadcast it. The buffer `mem` is
-- made at the first call, and memory does not run out.
use rcom.Data.{c_string}
use rcom.Util.Escape.{IsPrintable, read-escape_string, read_string}
use rcom.Rlib.{Membuf, Terminated}
use rcom.Util.{escape_string}
use rcom.Link.Texts.{quoted}
use rcom.Messagehub.{Hub, messagehub_broadcast_text}
use rcom.Base.{
  is_zero, pos, refl, some, false, [], ◌≡◌, ◌∷◌, ◌++◌, ℕ, Option, ℤ, if◌then◌else◌, Bytes,
}

-- `messagehub_broadcast_num`, `_broadcast_obj` and `_broadcast_f`, given what the formatting returns and
-- the text that it leaves in `mem`
unfoldable pub messagehub_broadcast_printed : Hub → Option ℕ → ℤ × Bytes → ℤ × Hub
messagehub_broadcast_printed hub exclude (err, text) =
    if is_zero err then messagehub_broadcast_text hub exclude text else (err, hub)

-- `messagehub_broadcast_str`, with the same arguments as `messagelink_send_str`
unfoldable pub messagehub_broadcast_str :
    (M : Membuf) → Terminated M → Hub → Option ℕ → M.Buf → ℤ → Bytes → ℤ × Hub
unfolding messagehub_broadcast_printed
messagehub_broadcast_str M Z hub exclude empty err value =
    messagehub_broadcast_printed hub exclude (err, quoted (M.bytes (escape_string M Z empty value)))

module _ (M : Membuf) (Z : Terminated M) where
  -- A string is broadcast as one text: a quote, and then what a reader of JSON strings reads as this
  -- string, up to its first zero, if it has no control character but tabs and line ends.
  pub broadcast_str-read :
      (hub : Hub) (exclude : Option ℕ) (empty : M.Buf) (value : Bytes)
      → M.bytes empty ≡ []
      → IsPrintable (c_string value)
      → (text : Bytes) × (messagehub_broadcast_str M Z hub exclude empty (pos 0) value
          ≡ messagehub_broadcast_text hub exclude (34 ∷ text))
        × (read_string false text ≡ some (c_string value, []))
  unfolding messagehub_broadcast_str
  broadcast_str-read hub exclude empty value e p = (
    c_string (M.bytes (escape_string M Z empty value)) ++ 34 ∷ [],
    refl,
    read-escape_string M Z value [] empty e p,
  )
