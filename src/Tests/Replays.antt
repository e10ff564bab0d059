-- ===== src/Tests/Replays.antt =====
-- Runs of an attachment.
use pi_remote.Prelude.{List, [], ◌∷◌}
use pi_remote.Sessions.Session.{Session}
use pi_remote.Sessions.Listens.{Op, published, broadcasted, detached, Listens}
use pi_remote.Tests.Values.{entry, ring_three, session, client}

abbrev later : List Op
later = published (entry 4) 9 ∷ broadcasted (7 ∷ []) ∷ detached "d" 9 ∷ []

abbrev listening : Session
listening = record (session ring_three) { attached_clients = ("c", client) ∷ [] }
