-- ===== src/Tests/Data.antt =====
-- The users, environments and messages that the tests share.
use everyone_talk.Prelude.{[], codes, arith}
use everyone_talk.Int.{pos, negsuc}
use everyone_talk.Common.{UserInfo, LoginInfo, online}
use everyone_talk.Server.State.{TblLogin}
use everyone_talk.Server.Sql.{Mysql}
use everyone_talk.Server.Handlers.{Env}
use everyone_talk.Protocol.Requests.{HasFields, HasLogin}

abbrev pub no_info : UserInfo
no_info = record { user_name = []; passwd = []; sex = []; birth = []; hometown = [] }

abbrev pub no_login : LoginInfo
no_login = record { user_name = []; passwd = []; ip = []; port = pos 0 }

abbrev pub junk_row : TblLogin
junk_row = record {
  id = negsuc 0;
  user_name = [];
  ip = [];
  port = pos 0;
  login_time = [];
  state = online;
  user_id = negsuc 0;
}

-- A database that accepts every statement and returns no rows.
abbrev pub mysql : Mysql
mysql = record {
  query = λ sent statement. pos 0;
  store_result = λ sent statement. record { fields = []; rows = [] };
}

abbrev pub env : Env
env = record {
  mysql = mysql;
  now = record { tm_year = 120; tm_mon = 7; tm_mday = 6; tm_hour = 3; tm_min = 5; tm_sec = 52 };
  user_info = no_info;
  login_info = no_login;
  t_login = junk_row;
  user_id = pos 7;
  state = online;
}

abbrev pub bob : UserInfo
bob = record {
  user_name = codes "Bob";
  passwd = codes "pw";
  sex = codes "m";
  birth = codes "1992";
  hometown = codes "Bern";
}

abbrev pub bob_login : LoginInfo
bob_login = record {
  user_name = codes "Bob";
  passwd = codes "pw";
  ip = codes "10.0.0.2";
  port = pos 50022;
}

pub bob-HasFields : HasFields bob
bob-HasFields = record {
  user_name = record { no_semicolon = omega arith; no_nul = omega arith };
  passwd = record { no_semicolon = omega arith; no_nul = omega arith };
  sex = record { no_semicolon = omega arith; no_nul = omega arith };
  birth = record { no_semicolon = omega arith; no_nul = omega arith };
  hometown = record { no_semicolon = omega arith; no_nul = omega arith };
}

pub bob_login-HasLogin : HasLogin bob_login
bob_login-HasLogin = record {
  user_name = record { no_semicolon = omega arith; no_nul = omega arith };
  passwd = record { no_semicolon = omega arith; no_nul = omega arith };
  ip = record { no_semicolon = omega arith; no_nul = omega arith };
  port = omega arith;
}
