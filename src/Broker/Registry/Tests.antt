-- ===== src/Broker/Registry/Tests.antt =====
-- A concrete registry.
use ttn.Base.{none}
use ttn.Broker.Registry.{Registry, IsSound, activate, deactivate}
use ttn.Broker.Registry.Contract.{Opens, Closes, registry-Opens}

abbrev empty : Registry
empty = record { channels = λ id. none; next = 0 }

empty-IsSound : IsSound empty
empty-IsSound = record { earlier = λ id c e. cc; alone = λ a b c e f. cc }

registry-Opens_example :
    Opens "Router " "r" empty (activate "Router " empty "r")
    × Closes "Router " "r" empty (deactivate "Router " empty "r")
    × IsSound (activate "Router " empty "r").0
    × IsSound (deactivate "Router " empty "r").0
registry-Opens_example = registry-Opens "Router " "r" empty empty-IsSound
