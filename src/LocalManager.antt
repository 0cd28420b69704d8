-- ===== src/LocalManager.antt =====
-- src/local_manager.rs: the task between the local interface and the channels of the manager. An event is
-- a branch of its `select!`, with what the interface answers.
pub mod Packets
pub mod Traffic
pub mod Failures
pub mod Opening
use mpconn.Base.{
  ℕ, Bool, true, false, Option, none, some, List, [], ◌∷◌, if◌then◌else◌, Outcome, done, panic,
  ◌>>=◌, channel_closed, no_receiver,
}
use mpconn.AsyncPcap.{ReadBuf}
use mpconn.Local
use mpconn.Local.{Local, OpenAnswers, ReadAnswer, WriteAnswer}
use mpconn.Messages.{Bytes}
use mpconn.Settings.{SettingsFile}
use mpconn.Sink.{Sink, put}

pub data Event : Type 0 where
  tun_result : ReadAnswer → Event
  new_packet_to_local : Option Bytes → WriteAnswer → Event

pub record LocalManager : Type 0 where
  pub local : Local
  pub packets_from_local : Sink Bytes
  pub tun_buf : ReadBuf

unfoldable pub new : OpenAnswers → SettingsFile → Sink Bytes → Outcome LocalManager
new answers settings packets_from_local = do
  local ← Local.new answers settings.local
  done (record {
    local = local;
    packets_from_local = packets_from_local;
    tun_buf = record { filled = []; capacity = 65535 };
  })

-- The branch of a read, once the buffer is filled.
unfoldable pub send_filled : ReadBuf → LocalManager → Outcome LocalManager
send_filled buf lm = do
  sink ← put no_receiver buf.filled lm.packets_from_local
  done (record lm { packets_from_local = sink; tun_buf = record buf { filled = [] } })

unfoldable pub step : Event → LocalManager → Outcome LocalManager
unfolding send_filled
step (tun_result answer) lm = do
  r ← Local.read answer lm.tun_buf lm.local
  if r.0 then send_filled r.1 lm else done (record lm { tun_buf = r.1 })
step (new_packet_to_local none answer) lm = panic channel_closed
step (new_packet_to_local (some bytes) answer) lm = do
  local ← Local.write answer bytes lm.local
  done (record lm { local = local })

unfoldable pub run : List Event → LocalManager → Outcome LocalManager
run [] lm = done lm
run (event ∷ events) lm = step event lm >>= run events
