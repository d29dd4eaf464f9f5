-- ===== src/Client/Program/Main.antt =====
-- The order of the calls in a whole run of the client.
use everyone_talk.Prelude.{
  ◌≡◌, refl, Option, Bool, true, false, [], Bytes, codes, bytes_eq, if_elim, arith, sym,
}
use everyone_talk.Int.{pos, negsuc}
use everyone_talk.Common.{UserInfo, LoginInfo}
use everyone_talk.Client.Requests
use everyone_talk.Client.Commands.{MainAction}
use everyone_talk.Client.Commands
use everyone_talk.Client.Config.{read_client_data, restore_client_data}
use everyone_talk.Client.Console.{
  Call, Client, Program, and_then, ◌>>=◌, pause, typed, call, scan_word,
}
use everyone_talk.Client.Program.{
  send_register, print_register, get_login_data, enter, login_info_of, deal_login_data, do_main,
  deal_main_cmd, main_loop, talk_to_server, main,
}
use everyone_talk.Client.Program.Follows.{
  Phase, Follows, Holds, Holds-weaken, Stays, Stays->>=, Takes->>=, pure-Stays, forever-Stays,
}
use everyone_talk.Client.Program.Moves.{
  typed-Takes, typed-Stays, pause-Stays, call-Stays, lift-Stays,
}
use everyone_talk.Client.Program.Keys.{read_word-Leaves, get_main_cmd-Leaves, scan_word-Leaves}
use everyone_talk.Client.Program.Screens.{then_pure, loop-Stays, behind, quit-Stays, enter-Stays}

send_register-Stays :
    (user_info : UserInfo) (repasswd : Bytes)
    → Stays Phase.out (λ _. Phase.out) (send_register user_info repasswd)
unfolding send_register
send_register-Stays user_info repasswd =
    if_elim (Stays Phase.out (λ _. Phase.out)) (bytes_eq user_info.passwd repasswd)
      (λ _. call-Stays _ Phase.out _ _ (λ xs h. Follows.registered xs user_info h))
      (λ _ c h. (h, omega arith))

-- A word that is typed, and what comes behind it.
with_word :
    {A : Type 0} (φ : A → Phase) (f : Bytes → Program A)
    → ((word : Bytes) → Stays Phase.out φ (f word))
    → Stays Phase.out φ (typed scan_word >>= f)
with_word φ f h =
    Stays->>= Phase.out (λ _. Phase.out) φ (typed scan_word) f (typed-Stays _ _ scan_word-Leaves) h

print_register-Stays : Stays Phase.out (λ _. Phase.out) print_register
unfolding print_register
print_register-Stays = with_word _ _ (λ user_name. with_word _ _ (λ passwd.
    with_word _ _ (λ repasswd. with_word _ _ (λ sex. with_word _ _ (λ birth.
      with_word _ _ (λ hometown.
        Stays->>= _ (λ _. Phase.out) _ _ _ (send_register-Stays _ repasswd)
          (λ _. pause-Stays Phase.out)))))))

get_login_data-Stays : Stays Phase.out (λ _. Phase.out) get_login_data
unfolding get_login_data
get_login_data-Stays =
    forever-Stays (λ _. Phase.out) _
      (Takes->>= _ (λ _. Phase.out) _ _ _ (typed-Takes _ _ read_word-Leaves)
        (λ l_data c h. (h, omega arith)))

-- The login carries the name that was typed.
login-Stays :
    (user_name passwd : Bytes) (login_info : LoginInfo)
    → login_info.user_name ≡ user_name
    → Stays Phase.out (behind Phase.out) (
        call (Call.login login_info) (Requests.login login_info) >>= λ ret.
        pause >>= λ _. enter user_name ret)
login-Stays user_name passwd login_info same =
    Stays->>= _ (λ _. Phase.tried user_name) _ _ _
      (call-Stays _ (Phase.tried user_name) _ _
        (λ xs h. rw (sym same) (Follows.logged_in xs login_info h)))
      (λ ret.
        Stays->>= _ (λ _. Phase.tried user_name) _ _ _ (pause-Stays _)
          (λ _. enter-Stays user_name ret))

deal_login_data-Stays : Stays Phase.out (behind Phase.out) deal_login_data
unfolding deal_login_data and_then
deal_login_data-Stays =
    Stays->>= _ (λ _. Phase.out) _ _ _ get_login_data-Stays
      (λ user_name.
        Stays->>= _ (λ _. Phase.out) _ _ _ get_login_data-Stays
          (λ passwd c h. login-Stays user_name passwd (login_info_of user_name passwd c) refl c h))

-- A quit from the first screen is under the name "none".
abbrev QuitsAsNone : MainAction → Type 0
QuitsAsNone MainAction.print_register = Unit
QuitsAsNone MainAction.deal_login_data = Unit
QuitsAsNone MainAction.help_main = Unit
QuitsAsNone (MainAction.quit_main user_name) = user_name ≡ codes "none"
QuitsAsNone MainAction.error_main = Unit

deal_main_cmd-QuitsAsNone : (c_cmd : Bytes) → QuitsAsNone (Commands.deal_main_cmd c_cmd)
unfolding Commands.deal_main_cmd
deal_main_cmd-QuitsAsNone c_cmd =
    if_elim QuitsAsNone (bytes_eq c_cmd (codes "register")) (λ _. tt)
      (λ _.
        if_elim QuitsAsNone (bytes_eq c_cmd (codes "login")) (λ _. tt)
          (λ _.
            if_elim QuitsAsNone (bytes_eq c_cmd (codes "help")) (λ _. tt)
              (λ _. if_elim QuitsAsNone (bytes_eq c_cmd (codes "quit")) (λ _. refl) (λ _. tt))))

do_main-Stays :
    (action : MainAction) → QuitsAsNone action → Stays Phase.out (behind Phase.out) (do_main action)
unfolding do_main
do_main-Stays MainAction.print_register q =
    then_pure _ (behind Phase.out) false _ print_register-Stays
do_main-Stays MainAction.deal_login_data q = deal_login_data-Stays
do_main-Stays MainAction.help_main q = then_pure _ (behind Phase.out) false _ (pause-Stays _)
do_main-Stays (MainAction.quit_main user_name) q =
    quit-Stays Phase.out user_name (λ xs h. rw q (Follows.stopped xs h))
do_main-Stays MainAction.error_main q = then_pure _ (behind Phase.out) false _ (pause-Stays _)

main_loop-Stays : Stays Phase.out (λ _. Phase.gone) main_loop
unfolding main_loop deal_main_cmd
main_loop-Stays = loop-Stays (behind Phase.out) deal_main_cmd (
    Takes->>= _ (λ _. Phase.out) _ _ _ (typed-Takes _ _ get_main_cmd-Leaves)
      (λ c_cmd. do_main-Stays (Commands.deal_main_cmd c_cmd) (deal_main_cmd-QuitsAsNone c_cmd)))

-- The phase behind a run.
abbrev pub last_phase : Bool → Phase
last_phase true = Phase.gone
last_phase false = Phase.out

talk_to_server-Stays :
    (connects : Bool) → Stays Phase.out (λ _. last_phase connects) (talk_to_server connects)
unfolding talk_to_server
talk_to_server-Stays true = then_pure _ (λ _. Phase.gone) (pos 0) _ main_loop-Stays
talk_to_server-Stays false = pure-Stays (λ _. Phase.out) (negsuc 0)

main-Stays :
    (connects : Bool) (file : Option Bytes)
    → Stays Phase.out (λ _. last_phase connects) (main connects file)
unfolding main
main-Stays connects file =
    Stays->>= _ (λ _. Phase.out) _ _ _ (lift-Stays _ (read_client_data file))
      (λ read.
        Stays->>= _ (λ _. Phase.out) _ _ _ (λ c h. (h, omega arith))
          (λ _.
            Stays->>= _ (λ _. last_phase connects) _ _ _ (talk_to_server-Stays connects)
              (λ ret.
                Stays->>= _ (λ _. last_phase connects) _ _ _
                  (lift-Stays _ (restore_client_data read.0.c_port read.1))
                  (λ file' c h. (h, omega arith)))))

-- Whatever is typed and whatever the server answers, no loop of the client uses up one round more than
-- there are keys, and the calls are in order wherever the client waits and where it returns: friends are
-- asked for behind a login and under its name, states are changed and messages sent only behind that,
-- and a quit comes last, under the name of that login or else "none". A client that was connected and
-- returns has quit.
pub main-Follows :
    (connects : Bool) (file : Option Bytes) (c : Client)
    → c.calls ≡ []
    → Holds (λ _ c'. Follows c'.calls (last_phase connects)) (main connects file c)
main-Follows connects file c none_yet =
    Holds-weaken _ _ (main connects file c)
      (main-Stays connects file c (rw none_yet Follows.nothing)) (λ r c' (h, l). h)
