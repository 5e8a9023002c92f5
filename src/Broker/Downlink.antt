-- ===== src/Broker/Downlink.antt =====
-- core/broker/downlink.go, and the identifiers of downlink options on their way: the router puts its
-- own identifier in front (core/router/downlink.go), the broker finds the router by it, and the
-- router takes it off again. Identifiers are lists of codes.
mod Tests
use ttn.Base.{
  ℕ, ◌≡◌, ◌≢◌, ◌↔◌, refl, sym, ap, ◌∙◌, Bool, true, false, List, [], ◌∷◌, ◌++◌, Option, none, some,
  String, Result, ok, err, Error, Outcome, done, fails, panics, ◌==◌, if◌then◌else◌, strip_prefix,
  strip_prefix-append, arith, done_inj, ok_inj,
}
use ttn.Errors.{Grpc, from_grpc_error}
use ttn.Messages.{DownlinkOption, DownlinkMessage}

-- A code in front of the first part.
in_front : ℕ → List (List ℕ) → List (List ℕ)
in_front c [] = (c ∷ []) ∷ []
in_front c (part ∷ parts) = (c ∷ part) ∷ parts

-- strings.Split at the colons.
pub split : List ℕ → List (List ℕ)
unfolding in_front
split [] = [] ∷ []
split (c ∷ s) = let parts = split s in if c == b':' then [] ∷ parts else in_front c parts

router_of_parts : List (List ℕ) → Result (List ℕ)
router_of_parts (router ∷ _ ∷ []) = ok router
router_of_parts _ = err (Error.invalid_argument "DownlinkOption Identifier" "invalid format")

-- The router that an option belongs to.
pub router_of : List ℕ → Result (List ℕ)
unfolding split router_of_parts
router_of identifier = router_of_parts (split identifier)

-- fmt.Sprintf("%s:%s", ...) of buildDownlinkOptions.
pub with_router : List ℕ → List ℕ → List ℕ
with_router router identifier = router ++ (b':' ∷ identifier)

-- strings.TrimPrefix.
trim_prefix : List ℕ → List ℕ → List ℕ
trim_prefix prefix identifier = elim (strip_prefix prefix identifier) [
  | none ↦ identifier
  | some rest ↦ rest
]

-- The identifier that HandleDownlink of the router hands to the gateway's schedule, for a router with
-- the identity that is given, or without one.
pub without_router : Option (List ℕ) → List ℕ → List ℕ
unfolding trim_prefix
without_router none identifier = identifier
without_router (some router) identifier = trim_prefix (router ++ (b':' ∷ [])) identifier

-- What the broker calls: the network server, and the channel of a connected router. The identifier
-- of an option is read by `codes_of`; an option that is not there makes the code panic.
pub record Services : Type 0 where
  pub ns_downlink : DownlinkMessage → Result DownlinkMessage
  pub router_channel : List ℕ → Result ℕ
  pub codes_of : String → List ℕ

module _ (grpc : Grpc) (services : Services) where
  on_channel : DownlinkMessage → Result ℕ → Outcome (ℕ × DownlinkMessage)
  on_channel message (err e) = fails e
  on_channel message (ok channel) = done (channel, message)

  on_router : DownlinkMessage → Result (List ℕ) → Outcome (ℕ × DownlinkMessage)
  unfolding on_channel
  on_router message (err e) = fails e
  on_router message (ok router) = on_channel message (services.router_channel router)

  on_option : DownlinkMessage → Option DownlinkOption → Outcome (ℕ × DownlinkMessage)
  unfolding on_router router_of
  on_option message none = panics
  on_option message (some option) =
      on_router message (router_of (services.codes_of option.identifier))

  on_network_server : Result DownlinkMessage → Outcome (ℕ × DownlinkMessage)
  unfolding on_option
  on_network_server (err e) =
      fails (Error.wrapped "NetworkServer did not handle downlink" (from_grpc_error grpc e))
  on_network_server (ok message) = on_option message message.downlink_option

  -- HandleDownlink: the channel that the message is sent to, and the message.
  pub handle_downlink : DownlinkMessage → Outcome (ℕ × DownlinkMessage)
  unfolding on_network_server
  handle_downlink message = on_network_server (services.ns_downlink message)

-- No colon.
abbrev pub IsPlain : List ℕ → Type 0
IsPlain [] = Unit
IsPlain (c ∷ s) = (c ≢ b':') × IsPlain s

split_plain : (s : List ℕ) → IsPlain s → split s ≡ s ∷ []
unfolding split in_front
split_plain [] p = refl
split_plain (c ∷ s) (n, p) = rw (split_plain s p) (ground arith)

split-with_router :
    (router identifier : List ℕ)
    → IsPlain router
    → IsPlain identifier
    → split (with_router router identifier) ≡ router ∷ identifier ∷ []
unfolding split with_router in_front
split-with_router [] identifier p q = rw (split_plain identifier q) refl
split-with_router (c ∷ router) identifier (n, p) q =
    rw (split-with_router router identifier p q) (ground arith)

with_router_assoc :
    (router identifier : List ℕ)
    → with_router router identifier ≡ (router ++ (b':' ∷ [])) ++ identifier
unfolding with_router
with_router_assoc [] identifier = refl
with_router_assoc (c ∷ router) identifier = ap (λ s. c ∷ s) (with_router_assoc router identifier)

on_channel_iff :
    (grpc : Grpc) (services : Services) (message : DownlinkMessage) (channel : ℕ) (r : Result ℕ)
    → (on_channel grpc services message r ≡ done (channel, message)) ↔ (r ≡ ok channel)
unfolding on_channel
on_channel_iff grpc services message channel (err e) = ((λ h. cc), (λ h. cc))
on_channel_iff grpc services message channel (ok c) =
    ((λ h. ap (λ p. ok p.0) (done_inj h)), (λ h. ap (λ r. done (r, message)) (ok_inj h)))

on_channel_fails_iff :
    (grpc : Grpc) (services : Services) (message : DownlinkMessage) (e : Error) (r : Result ℕ)
    → (on_channel grpc services message r ≡ fails e) ↔ (r ≡ err e)
unfolding on_channel
on_channel_fails_iff grpc services message e (err x) = ((λ h. cc), (λ h. cc))
on_channel_fails_iff grpc services message e (ok c) = ((λ h. cc), (λ h. cc))

-- An option that a router builds is sent back to this router, where it has the identifier that the
-- schedule gave it, if the router has an identity and neither identifier has a colon.
pub router_of-with_router :
    (router identifier : List ℕ)
    → IsPlain router
    → IsPlain identifier
    → (router_of (with_router router identifier) ≡ ok router)
      × (without_router (some router) (with_router router identifier) ≡ identifier)
unfolding router_of router_of_parts with_router without_router trim_prefix
router_of-with_router router identifier p q = (
  rw (split-with_router router identifier p q) refl,
  rw (with_router_assoc router identifier)
      (rw (strip_prefix-append (router ++ (b':' ∷ [])) identifier, trim_prefix) refl),
)

-- A downlink that the network server has completed with an option that a router with this identifier
-- built, neither identifier having a colon, goes to a channel exactly if this is the channel of the
-- router, and fails with an error exactly if this is the error of the look-up of the router.
pub handle_downlink_iff :
    (grpc : Grpc) (services : Services) (message sent : DownlinkMessage) (option : DownlinkOption)
    (router identifier : List ℕ) (channel : ℕ)
    → IsPlain router
    → IsPlain identifier
    → services.ns_downlink message ≡ ok sent
    → sent.downlink_option ≡ some option
    → services.codes_of option.identifier ≡ with_router router identifier
    → ((handle_downlink grpc services message ≡ done (channel, sent))
        ↔ (services.router_channel router ≡ ok channel))
      × ((e : Error)
          → (handle_downlink grpc services message ≡ fails e)
            ↔ (services.router_channel router ≡ err e))
unfolding handle_downlink on_network_server on_option on_router
handle_downlink_iff grpc services message sent option router identifier channel p q n o i =
    let routed =
      ap (on_network_server grpc services) n
      ∙ ap (on_option grpc services sent) o
      ∙ ap (on_router grpc services sent)
          (ap router_of i ∙ (router_of-with_router router identifier p q).0) in
    rw routed (
      on_channel_iff grpc services sent channel (services.router_channel router),
      (λ e. (on_channel_fails_iff grpc services sent e (services.router_channel router))),
    )
