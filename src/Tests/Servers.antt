-- ===== src/Tests/Servers.antt =====
-- A small continuum, and the theorems on the choice of a server at it.
use libmc.Tests.Sorting.{sort, sort-Sorts}
use libmc.Prelude.{List, ℕ, ◌≡◌, refl, true, false, [], ◌∷◌, some, none, arith, length, ◌<◌, ◌^◌}
use libmc.Hashkit.Ketama.{
  KetamaSelector, ContinuumItem, Formats, Server, get_server_it, add_servers,
}
use libmc.Hashkit.Ketama
use libmc.Hashkit.Crc.{hash_crc_32, complement}
use libmc.Hashkit.Crc.Laws.{divide_from, hash_crc_32-divide_from}
use libmc.Hashkit.Ketama.Build
use libmc.Hashkit.Ketama.Points.{HasPoints}
use libmc.Hashkit.Ketama.Build.{Sorts, add_servers-IsValid}
use libmc.Hashkit.Ketama.Circle.{Nearest}
use libmc.Hashkit.Ketama.Choice.{HasPoint, selected_state, get_server_it-Nearest}

-- Two servers with one point each.
abbrev pub two_servers : KetamaSelector
two_servers = record {
  continuum =
      record { hash_value = 10; conn_idx = 1 } ∷ record { hash_value = 20; conn_idx = 0 } ∷ [];
  n_servers = 2;
  use_failover = true;
  hash_function = some length;
  is_sorted = true;
}

pub two_servers-IsValid : Build.IsValid two_servers
two_servers-IsValid = record {
  sorted = ((omega arith, tt), (tt, tt));
  some_points = λ h. omega arith;
  indices = (omega arith, (omega arith, tt));
  built = λ h. refl;
}

get_server_it-Nearest_example :
    (i : ℕ) × (get_server_it true length (λ n (c : ℕ). (true, c)) (107 ∷ []) false two_servers 0
      ≡ some (some i, selected_state length (107 ∷ []) two_servers two_servers-IsValid, 0))
    × HasPoint two_servers i (Nearest 1 two_servers.continuum)
get_server_it-Nearest_example =
    get_server_it-Nearest length (107 ∷ []) two_servers two_servers-IsValid (omega arith) true
      (λ n (c : ℕ). (true, c)) 0

-- A format that writes the index as one byte.
abbrev pub formats : Formats
formats = record {
  name_and_index = λ name i. i ∷ name;
  host_port_and_index = λ host port i. i ∷ port ∷ host;
}

abbrev servers : List Server
servers =
    record { host = 97 ∷ []; port = 11211; alias = none }
    ∷ record { host = 97 ∷ []; port = 1; alias = none }
    ∷ []

add_servers-IsValid_example :
    Build.IsValid (add_servers formats length sort servers Ketama.empty)
    × (length (add_servers formats length sort servers Ketama.empty).continuum ≡ 200)
    × HasPoints formats length servers
        (add_servers formats length sort servers Ketama.empty).continuum
add_servers-IsValid_example =
    add_servers-IsValid formats length sort servers Ketama.empty sort-Sorts refl

abbrev one_to_nine : List ℕ
one_to_nine = 49 ∷ 50 ∷ 51 ∷ 52 ∷ 53 ∷ 54 ∷ 55 ∷ 56 ∷ 57 ∷ []

-- The check value of CRC-32.
check_value : hash_crc_32 one_to_nine ≡ some 3421780262
unfolding hash_crc_32
check_value = refl

hash_crc_32-divide_from_example :
    (hash_crc_32 one_to_nine ≡ some (complement (divide_from (complement 0) one_to_nine)))
    × (divide_from (complement 0) one_to_nine < 2 ^ 32)
hash_crc_32-divide_from_example = hash_crc_32-divide_from one_to_nine
