-- ===== src/Tests/Config.antt =====
-- Tests of client/read_config.cpp.
use everyone_talk.Prelude.{◌≡◌, refl, some, [], ◌∷◌, Bytes, codes, arith}
use everyone_talk.Int.{pos, print_int, atoi}
use everyone_talk.Outcome.{done, store, ◌>>=◌}
use everyone_talk.Client.Config.Updates.{Entry, IsEntry, content, write_content-file_of}
use everyone_talk.Client.Config.Entries.{IsValue}
use everyone_talk.Client.Config.Values.{bracketed, write_string_value-read}
use everyone_talk.CString.{c_str, cut, find}
use everyone_talk.Client.Config.{
  find_section, find_key, read_key, read_line, copy_value, cut_end, value_of, is_header, is_skipped,
  starts, fgets, header, increment, read_client_data, read_string_value, read_int_value,
  write_int_value, write_string_value, ini_write_value, write_content, write_over, overlay,
  ini_read_value,
}

-- The file of the repository, before and after a start of the client.
abbrev pub sample : Bytes
sample = codes "[section]\nc_ip=192.168.2.106\nc_port=50022\n\ns_ip=192.168.2.107\ns_port=15028"

abbrev sample_next : Bytes
sample_next =
    codes "[section]\nc_ip=192.168.2.106\nc_port=50023\n\ns_ip=192.168.2.107\ns_port=15028"

sample_read :
    read_client_data (some sample)
    ≡ done (
      record {
        c_ip = codes "192.168.2.106";
        c_port = pos 50022;
        s_ip = codes "192.168.2.107";
        s_port = pos 15028;
      },
      some sample_next,
    )
unfolding read_client_data read_string_value read_int_value write_int_value write_string_value
    ini_write_value write_content write_over overlay ini_read_value read_key read_line copy_value
    cut_end value_of find_key find_section is_header is_skipped starts fgets header increment store
    print_int atoi cut c_str find
sample_read = refl

-- The file of the repository, split at the port of the client.
abbrev pub entry : Entry
entry = record {
  before = [];
  head = codes "[section]";
  between = codes "c_ip=192.168.2.106" ∷ [];
  old = codes "c_port=50022";
  post = codes "\ns_ip=192.168.2.107\ns_port=15028";
}

pub entry-IsEntry : IsEntry (bracketed (codes "section")) (codes "c_port") entry
unfolding starts is_skipped is_header c_str
entry-IsEntry = record {
  no_section = tt;
  head_line = record { no_newline = omega arith; fits = omega arith };
  heads = refl;
  no_key = ((record { no_newline = omega arith; fits = omega arith }, refl), tt);
  old_line = record { no_newline = omega arith; fits = omega arith };
  no_nul = omega arith;
  keyed = refl;
}

longer-IsValue : IsValue (codes "c_port") (codes "100000")
longer-IsValue = record {
  no_newline = omega arith;
  no_return = omega arith;
  no_nul = omega arith;
  fits = omega arith;
}

-- A longer text takes the newline of the empty line behind it.
write_content-file_of_example :
    write_content (codes "[section]") (codes "c_port") (codes "c_port=100000\n") (content entry)
    ≡ codes "[section]\nc_ip=192.168.2.106\nc_port=100000\ns_ip=192.168.2.107\ns_port=15028"
write_content-file_of_example =
    write_content-file_of (codes "[section]") (codes "c_port") entry entry-IsEntry
      (codes "c_port=100000\n")

write_string_value-read_example :
    (write_string_value (codes "section") (codes "c_port") (codes "100000") (some (content entry))
      >>= read_string_value (codes "section") (codes "c_port") (codes "junk"))
    ≡ done (codes "100000")
write_string_value-read_example =
    write_string_value-read (codes "section") (codes "c_port") (codes "100000") (codes "junk") entry
      (omega arith) (omega arith) longer-IsValue entry-IsEntry
