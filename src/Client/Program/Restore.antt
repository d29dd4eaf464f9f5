-- ===== src/Client/Program/Restore.antt =====
-- What a run of the client leaves of config.ini.
use everyone_talk.Prelude.{ℕ, suc, ◌+◌, ◌≡◌, refl, Bool, some, length}
use everyone_talk.Int.{pos, IsInt, print_int}
use everyone_talk.Client.Config.{ClientData}
use everyone_talk.Client.Config.Updates.{Entry, IsEntry, content}
use everyone_talk.Client.Config.Entries.{entry_line}
use everyone_talk.Client.Config.Values.{
  bracketed, section_name, c_port_name, read_client_data-restore,
}
use everyone_talk.Client.Console.{Client, ◌>>=◌, pure, and_then, lift}
use everyone_talk.Client.Program.{main, talk_to_server}

-- A run of the client is its exchange with the server, under the port of the file, and leaves the file as
-- it was wherever it returns: the raise of the port by one at the start is undone. The file has the
-- section, and in it the port, not negative and below the greatest `int`, alone in its line, and the raised
-- port has as many digits.
pub main_restores :
    (connects : Bool) (port : ℕ) (e : Entry) (c : Client)
    → IsInt (pos (suc port))
    → IsEntry (bracketed section_name) c_port_name e
    → e.old ≡ entry_line c_port_name (print_int (pos port))
    → length (print_int (pos (port + 1))) ≡ length (print_int (pos port))
    → (read : ClientData) × (read.c_port ≡ pos port)
      × (main connects (some (content e)) c
          ≡ (talk_to_server connects >>= λ ret. pure (ret, some (content e)))
              (record c { c_ip = read.c_ip; c_port = read.c_port }))
unfolding main lift and_then
main_restores connects port e c b h o l =
    let (read, file', reads, same, restores) = read_client_data-restore port e b h o l in
    (read, same, rw reads (rw restores refl))
