-- ===== src/Datahub/Texts.antt =====
-- librcom/src/datahub.c: the calls that format a packet into the output of a data hub before they send or
-- broadcast it. The clock, the formatted texts and the new buffer of `escape_string` are arguments.
use rcom.Data.{Data, set_timestamp, vprintf, set_data}
use rcom.Datalink.{Wire}
use rcom.Rlib.{Lists, Membuf, Terminated}
use rcom.Util.{escape_string}
use rcom.Link.Texts.{quoted}
use rcom.Datahub.{Hub, Link, datahub_send_locked, datahub_broadcast_locked}
use rcom.Base.{is_zero, Option, none, some, ℤ, pos, negsuc, ℕ, Bytes, if◌then◌else◌}

-- `output`, beside what Hub keeps
pub record Sender : Type 0 where
  pub hub : Hub
  pub output : Data

-- a call under the test of what the formatting returns
abbrev pub when_printed : (Sender → Option (ℤ × Sender)) → Sender → ℤ × Data → Option (ℤ × Sender)
when_printed call s (err, output) =
    let s' : Sender = record s { output = output } in
    if is_zero err then call s' else some (err, s')

-- a call on what `data_set_data` leaves
abbrev pub when_set : (Sender → Option (ℤ × Sender)) → Sender → Option Data → Option (ℤ × Sender)
when_set call s none = none
when_set call s (some output) = call (record s { output = output })

-- the text that `escape_string` and the format make of a string
abbrev pub string_text : (M : Membuf) → Terminated M → M.Buf → Bytes → Bytes
string_text M Z empty value = quoted (M.bytes (escape_string M Z empty value))

module _ (W : Wire) (L : Lists Link) where
  -- `datahub_send_locked` of the output, with the time
  unfoldable pub send_output : Option Link → ℕ → Sender → Option (ℤ × Sender)
  unfolding datahub_send_locked
  send_output none time s = some (negsuc 0, s)
  send_output (some link) time s =
      elim (datahub_send_locked W L s.hub (some link) s.output (some time)) [
        | none ↦ none
        | some (err, hub) ↦ some (err, record { hub = hub; output = set_timestamp s.output time })
      ]

  -- `datahub_send_num` and `datahub_send_obj`, given what the formatting returns and leaves
  unfoldable pub datahub_send_printed : Sender → Option Link → ℤ × Data → ℕ → Option (ℤ × Sender)
  unfolding send_output
  datahub_send_printed s link printed time = when_printed (send_output link time) s printed

  -- `datahub_send_f` and `datahub_send_v`
  unfoldable pub datahub_send_f : Sender → Option Link → Option Bytes → ℕ → Option (ℤ × Sender)
  unfolding send_output
  datahub_send_f s link text time =
      send_output link time (record s { output = (vprintf s.output text).1 })

  unfoldable pub datahub_send_bin :
      Sender → Option Link → Option Bytes → ℤ → ℕ → Option (ℤ × Sender)
  unfolding send_output
  datahub_send_bin s link block len time =
      when_set (send_output link time) s (set_data s.output block len)

  -- `datahub_broadcast_locked` of the output, with the time
  unfoldable pub broadcast_output : Option ℕ → ℕ → Sender → Option (ℤ × Sender)
  unfolding datahub_broadcast_locked
  broadcast_output exclude time s =
      elim (datahub_broadcast_locked W L s.hub exclude s.output (some time)) [
        | none ↦ none
        | some hub ↦ some (pos 0, record { hub = hub; output = set_timestamp s.output time })
      ]

  -- `datahub_broadcast_num` and `datahub_broadcast_obj`
  unfoldable pub datahub_broadcast_printed : Sender → Option ℕ → ℤ × Data → ℕ → Option (ℤ × Sender)
  unfolding broadcast_output
  datahub_broadcast_printed s exclude printed time =
      when_printed (broadcast_output exclude time) s printed

  -- `datahub_broadcast_f` and `datahub_broadcast_v`
  unfoldable pub datahub_broadcast_f : Sender → Option ℕ → Option Bytes → ℕ → Option (ℤ × Sender)
  unfolding broadcast_output
  datahub_broadcast_f s exclude text time =
      broadcast_output exclude time (record s { output = (vprintf s.output text).1 })

  unfoldable pub datahub_broadcast_bin :
      Sender → Option ℕ → Option Bytes → ℤ → ℕ → Option (ℤ × Sender)
  unfolding broadcast_output
  datahub_broadcast_bin s exclude block len time =
      when_set (broadcast_output exclude time) s (set_data s.output block len)

  module _ (M : Membuf) (Z : Terminated M) where
    unfoldable pub datahub_send_str : Sender → Option Link → M.Buf → Bytes → ℕ → Option (ℤ × Sender)
    unfolding datahub_send_printed
    datahub_send_str s link empty value time =
        datahub_send_printed s link (vprintf s.output (some (string_text M Z empty value))) time

    unfoldable pub datahub_broadcast_str :
        Sender → Option ℕ → M.Buf → Bytes → ℕ → Option (ℤ × Sender)
    unfolding datahub_broadcast_printed
    datahub_broadcast_str s exclude empty value time =
        datahub_broadcast_printed s exclude (vprintf s.output (some (string_text M Z empty value)))
          time
