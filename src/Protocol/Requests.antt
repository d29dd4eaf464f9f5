-- ===== src/Protocol/Requests.antt =====
-- The requests of client/serialize_msg.cpp as server/server.cpp reads them.
use everyone_talk.Prelude.{
  ◌<◌, ◌≡◌, sym, ◌∙◌, some, [], ◌∷◌, ◌++◌, append_assoc, Bytes, All-append, Lacks, arith, length,
  length-append,
}
use everyone_talk.Int.{ℤ, IsInt, print_int}
use everyone_talk.Int.RoundTrip.{print_int-Lacks_below}
use everyone_talk.Outcome.{done, store, store_done, store_fits}
use everyone_talk.CString.{c_str-Lacks, cut_at}
use everyone_talk.Common.{
  UserInfo, LoginInfo, max_line, semicolon, newline, msg_id_register, msg_id_login,
}
use everyone_talk.Server.Parse.{
  get_msgtpye, read_field, analysis_register_msgdata, analysis_login_msgdata, read_text,
  read_address,
}
use everyone_talk.Server.Connection.Lines.{IsLine}
use everyone_talk.Client.Serialize.{register_serialize, login_serialize}
use everyone_talk.Protocol.Fields.{IsField, atoi-print_int_end, get_msgtpye_line}

pub record HasFields (u : UserInfo) : Type 0 where
  pub user_name : IsField u.user_name
  pub passwd : IsField u.passwd
  pub sex : IsField u.sex
  pub birth : IsField u.birth
  pub hometown : IsField u.hometown

read_field_at :
    (assign : Bytes → UserInfo) (u : UserInfo) (s rest : Bytes)
    → IsField s
    → length s < max_line
    → read_field assign u (s ++ semicolon ∷ rest) ≡ done (rest, assign s)
unfolding read_field
read_field_at assign u s rest h k = rw (
  read_field,
  cut_at semicolon s rest h.no_semicolon,
  c_str-Lacks s h.no_nul,
  store_fits max_line s k,
)

-- What is left of a register request behind its number and the newline.
register_data : UserInfo → Bytes
register_data u =
    u.user_name
    ++ semicolon
      ∷ (u.passwd ++ semicolon ∷ (u.sex ++ semicolon ∷ (u.birth ++ semicolon ∷ u.hometown)))

analysis-register_data :
    (u v : UserInfo)
    → HasFields u
    → length (register_data u) < max_line
    → analysis_register_msgdata (register_data u) v ≡ done (record u { hometown = u.birth })
unfolding analysis_register_msgdata register_data
analysis-register_data u v h k = rw (
  read_field_at (λ text. record v { user_name = text }) v u.user_name _ h.user_name
      (omega (arith, length-append {0})),
  read_field_at _ _ u.passwd _ h.passwd (omega (arith, length-append {0})),
  read_field_at _ _ u.sex _ h.sex (omega (arith, length-append {0})),
  read_field_at _ _ u.birth _ h.birth (omega (arith, length-append {0})),
)

register_data-Lacks : (u : UserInfo) → HasFields u → Lacks 0 (register_data u)
unfolding register_data
register_data-Lacks u h = All-append _ u.user_name _ h.user_name.no_nul (
  omega arith,
  All-append _ u.passwd _ h.passwd.no_nul (
    omega arith,
    All-append _ u.sex _ h.sex.no_nul
        (omega arith, All-append _ u.birth _ h.birth.no_nul (omega arith, h.hometown.no_nul)),
  ),
)

register_serialize-register_data :
    (u : UserInfo) (id : ℤ)
    → HasFields u
    → register_serialize u id
      ≡ store max_line (print_int id ++ semicolon ∷ (register_data u ++ newline ∷ []))
unfolding register_serialize register_data
register_serialize-register_data u id h =
    rw
      (
        c_str-Lacks u.user_name h.user_name.no_nul,
        c_str-Lacks u.passwd h.passwd.no_nul,
        c_str-Lacks u.sex h.sex.no_nul,
        c_str-Lacks u.birth h.birth.no_nul,
        c_str-Lacks u.hometown h.hometown.no_nul,
      )
      (simp append_assoc)

-- A register request that fits its buffer, of texts with no semicolon and no NUL, is read back
-- field by field, but for the home town, which becomes the birth date. Before, every field of the
-- server's record may hold anything.
pub register_request :
    (u v : UserInfo) (req : Bytes)
    → HasFields u
    → register_serialize u msg_id_register ≡ done req
    → (text : Bytes) × (get_msgtpye req ≡ some (msg_id_register, text))
      × (analysis_register_msgdata text v ≡ done (record u { hometown = u.birth }))
register_request u v req h e =
    let (same, fits) =
      store_done max_line _ (sym (register_serialize-register_data u msg_id_register h) ∙ e) in
    (
      register_data u,
      rw same (
          get_msgtpye_line msg_id_register (register_data u) (omega arith)
            (register_data-Lacks u h)),
      analysis-register_data u v h (omega (arith, fits, length-append {0})),
    )

login_data : LoginInfo → Bytes
login_data l =
    l.user_name ++ semicolon ∷ (l.passwd ++ semicolon ∷ (l.ip ++ semicolon ∷ print_int l.port))

-- The three texts of a login are fields, and the port is an `int`.
pub record HasLogin (l : LoginInfo) : Type 0 where
  pub user_name : IsField l.user_name
  pub passwd : IsField l.passwd
  pub ip : IsField l.ip
  pub port : IsInt l.port

login_data-Lacks : (l : LoginInfo) → HasLogin l → Lacks 0 (login_data l)
unfolding login_data
login_data-Lacks l h = All-append _ l.user_name _ h.user_name.no_nul (
  omega arith,
  All-append _ l.passwd _ h.passwd.no_nul (
    omega arith,
    All-append _ l.ip _ h.ip.no_nul (omega arith, print_int-Lacks_below 0 l.port (omega arith)),
  ),
)

login_serialize-login_data :
    (l : LoginInfo) (id : ℤ)
    → HasLogin l
    → login_serialize l id
      ≡ store max_line (print_int id ++ semicolon ∷ (login_data l ++ newline ∷ []))
unfolding login_serialize login_data
login_serialize-login_data l id h =
    rw
      (
        c_str-Lacks l.user_name h.user_name.no_nul,
        c_str-Lacks l.passwd h.passwd.no_nul,
        c_str-Lacks l.ip h.ip.no_nul,
      )
      (simp append_assoc)

read_text_at :
    (assign : Bytes → LoginInfo) (l : LoginInfo) (s rest : Bytes)
    → IsField s
    → read_text assign l (s ++ semicolon ∷ rest) ≡ (rest, assign s)
unfolding read_text
read_text_at assign l s rest h = rw (read_text, cut_at semicolon s rest h.no_semicolon)

read_address_at :
    (l : LoginInfo) (ip : Bytes) (port : ℤ)
    → IsField ip
    → IsInt port
    → read_address l (ip ++ semicolon ∷ print_int port) ≡ record l { ip = ip; port = port }
unfolding read_address
read_address_at l ip port h k =
    rw
      (read_address, cut_at semicolon ip (print_int port) h.no_semicolon, atoi-print_int_end port k)

analysis-login_data : (l m : LoginInfo) → HasLogin l → analysis_login_msgdata (login_data l) m ≡ l
unfolding analysis_login_msgdata login_data
analysis-login_data l m h = rw (
  read_text_at (λ text. record m { user_name = text }) m l.user_name _ h.user_name,
  read_text_at _ _ l.passwd _ h.passwd,
  read_address_at _ l.ip l.port h.ip h.port,
)

-- A login request that fits its buffer, of texts with no semicolon and no NUL and a port that is
-- an `int`, is read back exactly.
pub login_request :
    (l m : LoginInfo) (req : Bytes)
    → HasLogin l
    → login_serialize l msg_id_login ≡ done req
    → (text : Bytes) × (get_msgtpye req ≡ some (msg_id_login, text))
      × (analysis_login_msgdata text m ≡ l)
login_request l m req h e =
    let (same, fits) =
      store_done max_line _ (sym (login_serialize-login_data l msg_id_login h) ∙ e) in
    (
      login_data l,
      rw same (get_msgtpye_line msg_id_login (login_data l) (omega arith) (login_data-Lacks l h)),
      analysis-login_data l m h,
    )

-- No text of a login holds a newline.
pub record IsOneLine (l : LoginInfo) : Type 0 where
  pub user_name : Lacks newline l.user_name
  pub passwd : Lacks newline l.passwd
  pub ip : Lacks newline l.ip

login_data-one_line : (l : LoginInfo) → IsOneLine l → Lacks newline (login_data l)
unfolding login_data
login_data-one_line l h = All-append _ l.user_name _ h.user_name (
  omega arith,
  All-append _ l.passwd _ h.passwd (
    omega arith,
    All-append _ l.ip _ h.ip (omega arith, print_int-Lacks_below newline l.port (omega arith)),
  ),
)

-- A login request is one line, with no NUL, that fits the server's buffer.
pub login_request-IsLine :
    (l : LoginInfo) (req : Bytes)
    → HasLogin l
    → IsOneLine l
    → login_serialize l msg_id_login ≡ done req
    → (line : Bytes) × (req ≡ line ++ newline ∷ []) × IsLine line
login_request-IsLine l req h k e =
    let (same, fits) =
      store_done max_line _ (sym (login_serialize-login_data l msg_id_login h) ∙ e) in
    let line : Bytes = print_int msg_id_login ++ semicolon ∷ login_data l in
    let split : req ≡ line ++ newline ∷ [] =
      same
      ∙ sym (append_assoc (print_int msg_id_login) (semicolon ∷ login_data l) (newline ∷ [])) in
    (
      line,
      split,
      record {
        no_newline =
            All-append _ (print_int msg_id_login) _
              (print_int-Lacks_below newline msg_id_login (omega arith))
              (omega arith, login_data-one_line l k);
        no_nul =
            All-append _ (print_int msg_id_login) _
              (print_int-Lacks_below 0 msg_id_login (omega arith))
              (omega arith, login_data-Lacks l h);
        fits = omega (arith, fits, length-append {0});
      },
    )
