-- ===== src/Sessions/Replayed.antt =====
-- `AttachWithReplay`: the replay, and the live frames behind it.
use pi_remote.Prelude.{string_eq}
use pi_remote.Sessions.Channels.{Channels}
use pi_remote.Sessions.Session.{Session}
use pi_remote.Sessions.Listens.{Listens}
