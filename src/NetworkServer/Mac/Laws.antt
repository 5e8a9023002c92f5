-- ===== src/NetworkServer/Mac/Laws.antt =====
-- What the MAC layer of an uplink leaves as it is.
use ttn.Base.{
  ◌≡◌, ◌≢◌, refl, ◌∙◌, ◌⊎◌, Bool, true, false, List, [], ◌∷◌, Result, ok, err, arith, ◌==◌,
  if◌then◌else◌,
}
use ttn.Messages.{MacCommand, MacMessage}
use ttn.NetworkServer.Device.{AdrSettings, Faults, clear}
use ttn.NetworkServer.Mac.{
  MacCodec, Uplink, Session, with_adr, set_ack, push_frame, answer_adr_ack, clear_adr,
  handle_uplink_adr, handle_command, handle_commands, cleared, append_command, answer_link_check,
  take_adr_answer, avoid_port_0, acknowledge, finish_mac, handle_uplink_mac,
}

-- The counters and the address stay, and an acknowledgement is not taken back.
pub record Keeps (s t : Session) : Type 0 where
  pub f_cnt : t.answer.f_cnt ≡ s.answer.f_cnt
  pub dev_addr : t.answer.dev_addr ≡ s.answer.dev_addr
  pub ack : s.answer.ack ≡ true → t.answer.ack ≡ true
  pub f_cnt_up : t.device.f_cnt_up ≡ s.device.f_cnt_up
  pub f_cnt_down : t.device.f_cnt_down ≡ s.device.f_cnt_down

same : (s : Session) → Keeps s s
same s = record { f_cnt = refl; dev_addr = refl; ack = λ e. e; f_cnt_up = refl; f_cnt_down = refl }

chain : (s t u : Session) → Keeps s t → Keeps t u → Keeps s u
chain s t u k l = record {
  f_cnt = l.f_cnt ∙ k.f_cnt;
  dev_addr = l.dev_addr ∙ k.dev_addr;
  ack = λ e. l.ack (k.ack e);
  f_cnt_up = l.f_cnt_up ∙ k.f_cnt_up;
  f_cnt_down = l.f_cnt_down ∙ k.f_cnt_down;
}

with_adr-Keeps : (s : Session) (adr : AdrSettings) → Keeps s (with_adr s adr)
unfolding with_adr
with_adr-Keeps s adr = record {
  f_cnt = refl;
  dev_addr = refl;
  ack = λ e. e;
  f_cnt_up = refl;
  f_cnt_down = refl;
}

if-Keeps : (s t u : Session) (b : Bool) → Keeps s t → Keeps s u → Keeps s (if b then t else u)
if-Keeps s t u true k l = k
if-Keeps s t u false k l = l

take_adr_answer-Keeps :
    (s : Session) (r : Result (Bool × Bool × Bool)) → Keeps s (take_adr_answer s r)
unfolding take_adr_answer
take_adr_answer-Keeps s (err e) = same s
take_adr_answer-Keeps s (ok answer) = with_adr-Keeps s _

handle_command-Keeps :
    (codec : MacCodec) (uplink : Uplink) (s : Session) (command : MacCommand)
    → Keeps s (handle_command codec uplink s command)
unfolding handle_command answer_link_check append_command
handle_command-Keeps codec uplink s command =
    if-Keeps s _ _ (command.cid == codec.link_check_req)
      (record { f_cnt = refl; dev_addr = refl; ack = λ a. a; f_cnt_up = refl; f_cnt_down = refl })
      (if-Keeps s _ _ (command.cid == codec.link_adr_ans) (take_adr_answer-Keeps s _) (same s))

handle_commands-Keeps :
    (codec : MacCodec) (uplink : Uplink) (commands : List MacCommand) (s : Session)
    → Keeps s (handle_commands codec uplink s commands)
unfolding handle_commands
handle_commands-Keeps codec uplink [] s = same s
handle_commands-Keeps codec uplink (command ∷ commands) s =
    chain s _ _ (handle_command-Keeps codec uplink s command)
      (handle_commands-Keeps codec uplink commands (handle_command codec uplink s command))

answer_adr_ack-Keeps : (uplink : Uplink) (s : Session) → Keeps s (answer_adr_ack uplink s)
unfolding answer_adr_ack set_ack with_adr
answer_adr_ack-Keeps uplink s =
    if-Keeps s _ _ uplink.mac.adr_ack_req
      (record {
        f_cnt = refl;
        dev_addr = refl;
        ack = λ a. refl;
        f_cnt_up = refl;
        f_cnt_down = refl;
      })
      (same s)

cleared-Keeps : (s t : Session) (r : Result (Unit {0})) → Keeps s t → Keeps s (cleared t r).0
unfolding cleared
cleared-Keeps s t (err e) k = k
cleared-Keeps s t (ok _) k = chain s t _ k (with_adr-Keeps t _)

fst_if-Keeps :
    (s : Session) (t u : Session × Result (Unit {0})) (b : Bool)
    → Keeps s t.0
    → Keeps s u.0
    → Keeps s (if b then t else u).0
fst_if-Keeps s t u true k l = k
fst_if-Keeps s t u false k l = l

handle_uplink_adr-Keeps :
    (codec : MacCodec) (faults : Faults) (uplink : Uplink) (s : Session)
    → Keeps s (handle_uplink_adr codec faults uplink s).0
unfolding handle_uplink_adr clear_adr push_frame
handle_uplink_adr-Keeps codec faults uplink s =
    let pushed = push_frame codec faults uplink s in
    let start : Keeps s pushed = record {
      f_cnt = refl;
      dev_addr = refl;
      ack = λ a. a;
      f_cnt_up = refl;
      f_cnt_down = refl;
    } in
    fst_if-Keeps s _ _ uplink.mac.adr
      (chain s pushed _ start
        (chain pushed _ _ (with_adr-Keeps pushed _) (answer_adr_ack-Keeps uplink _)))
      (cleared-Keeps s (record s { history = (clear faults s.history).0 }) _
        (record {
          f_cnt = refl;
          dev_addr = refl;
          ack = λ a. a;
          f_cnt_up = refl;
          f_cnt_down = refl;
        }))

-- MAC commands do not go out on port 0.
avoid_port_0_lem :
    (answer : MacMessage) → ((avoid_port_0 answer).f_opts ≡ []) ⊎ ((avoid_port_0 answer).f_port ≢ 0)
unfolding avoid_port_0
avoid_port_0_lem answer = ground arith

avoid_port_0-Keeps : (s : Session) → Keeps s (record s { answer = avoid_port_0 s.answer })
unfolding avoid_port_0
avoid_port_0-Keeps s = record {
  f_cnt = ground arith;
  dev_addr = ground arith;
  ack = λ a. ground arith;
  f_cnt_up = refl;
  f_cnt_down = refl;
}

-- What holds of the answer after the MAC layer.
pub record Answers (uplink : Uplink) (s t : Session) : Type 0 where
  pub keeps : Keeps s t
  pub acks : uplink.is_confirmed ≡ true → t.answer.ack ≡ true
  pub port : (t.answer.f_opts ≡ []) ⊎ (t.answer.f_port ≢ 0)

finish_mac-Answers :
    (codec : MacCodec) (uplink : Uplink) (s t : Session) (r : Result (Unit {0}))
    → Keeps s t
    → (uplink.is_confirmed ≡ true → t.answer.ack ≡ true)
    → (finish_mac codec uplink t r).1 ≡ ok tt
    → Answers uplink s (finish_mac codec uplink t r).0
unfolding finish_mac
finish_mac-Answers codec uplink s t (err e) k a h = cc
finish_mac-Answers codec uplink s t (ok _) k a h =
    let handled = handle_commands codec uplink t uplink.mac.f_opts in
    let more =
      chain t handled _ (handle_commands-Keeps codec uplink uplink.mac.f_opts t)
        (avoid_port_0-Keeps handled) in
    record {
      keeps = chain s t _ k more;
      acks = λ e. more.ack (a e);
      port = avoid_port_0_lem handled.answer;
    }

acknowledge-Keeps :
    (uplink : Uplink) (s : Session)
    → Keeps s (acknowledge uplink s)
      × (uplink.is_confirmed ≡ true → (acknowledge uplink s).answer.ack ≡ true)
unfolding acknowledge set_ack
acknowledge-Keeps uplink s = (
  if-Keeps s _ _ uplink.is_confirmed
      (record {
        f_cnt = refl;
        dev_addr = refl;
        ack = λ a. refl;
        f_cnt_up = refl;
        f_cnt_down = refl;
      })
      (same s),
  λ e. rw e refl,
)

pub handle_uplink_mac-Answers :
    (codec : MacCodec) (faults : Faults) (uplink : Uplink) (s : Session)
    → (handle_uplink_mac codec faults uplink s).1 ≡ ok tt
    → Answers uplink s (handle_uplink_mac codec faults uplink s).0
unfolding handle_uplink_mac
handle_uplink_mac-Answers codec faults uplink s h =
    let start = acknowledge uplink s in
    let (keeps, acks) = acknowledge-Keeps uplink s in
    let adr = handle_uplink_adr-Keeps codec faults uplink start in
    finish_mac-Answers codec uplink s _ _ (chain s start _ keeps adr) (λ e. adr.ack (acks e)) h
