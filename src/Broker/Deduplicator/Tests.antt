-- ===== src/Broker/Deduplicator/Tests.antt =====
-- A concrete run.
use ttn.Base.{ℕ, List, [], ◌∷◌, false}
use ttn.Broker.Deduplicator.{Timer, Collection, Event, call, first_timeout, second_timeout, wake}

abbrev blank : Collection ℕ
blank = record { key = ""; values = []; ready = false; waiting = false; timer = Timer.finished }

abbrev events : List (Event ℕ)
events =
    call "a" 1
    ∷ call "b" 2
    ∷ call "a" 3
    ∷ first_timeout 0
    ∷ wake 0
    ∷ call "a" 4
    ∷ second_timeout 0
    ∷ []
