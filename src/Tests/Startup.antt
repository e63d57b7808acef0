-- ===== src/Tests/Startup.antt =====
-- The main program with its configuration at concrete inputs.
use linkedon_push.Common.{
  ℕ, ◌<◌, ◌≡◌, ◌≢◌, ◌↔◌, refl, inl, inr, true, false, List, [], ◌∷◌, ◌++◌, Option, none, some,
  if◌then◌else◌, Bytes, codes, bytes_eq, length, drop, starts_with, arith,
}
use linkedon_push.Config.{Config, Garbage, make_config, Root, Parsed, read, parse_text, loaded}
use linkedon_push.Config.Entries.{ShowsConfig, parse_text_lem}
use linkedon_push.Main.{Machine, child, parse_arguments, main_program, serving}
use linkedon_push.Main.Serves.{IsServing, main_program_serves}
use linkedon_push.Redis.{Arg, Reply}
use linkedon_push.Redis.Laws.{array_of}
use linkedon_push.Server.{Server}
use linkedon_push.Utils.{check_pro_dir, pro_suffix}
use linkedon_push.Utils.Place.{IsProDir, check_pro_dir_iff}
use linkedon_push.Tests.Servers.{some_config, boot, booted}

-- A file with four members; it leaves the rest as the constructor made it.
abbrev garbage : Garbage
garbage = record { isdaemon = 1; loglevel = 0 }

abbrev int_member : Bytes → Option ℕ
int_member key =
    if bytes_eq key (codes "port")
    then some 9000
    else if bytes_eq key (codes "maxconnect")
    then some 100
    else none

abbrev text_member : Bytes → Option Bytes
text_member key =
    if bytes_eq key (codes "localhost")
    then some (codes "h")
    else if bytes_eq key (codes "task_prefix")
    then some (codes "p")
    else none

abbrev is_some {ℓ} : {A : Type ℓ} → Option A → linkedon_push.Common.Bool
is_some none = false
is_some (some a) = true

abbrev some_root : Root
some_root = record {
  is_member =
      λ key. linkedon_push.Common.◌||◌ (is_some (int_member key)) (is_some (text_member key));
  as_int = int_member;
  as_string = text_member;
  as_cstring = text_member;
  member_names = [];
}

some_root-ShowsConfig : ShowsConfig some_root garbage some_config
some_root-ShowsConfig = record {
  maxconnect = inl (refl, refl);
  isdaemon = inr (refl, refl);
  port = inl (refl, refl);
  pid_file = inr (refl, refl);
  loglevel = inr (refl, refl);
  ip = inr (refl, refl);
  logdir = inr (refl, refl);
  logfilename = inr (refl, refl);
  localhost = inl (refl, refl);
  result_list = inr (refl, refl);
  app_keys = inr (refl, refl);
  server_list = (inr (refl, refl), refl);
  task_prefix = (inl (refl, refl), refl);
  project_dir = inr (refl, refl);
  redis_host = inr (refl, refl);
  redis_pass = inr (refl, refl);
  redis_port = inr (refl, refl);
  redis_db = inr (refl, refl);
  mongo_url = inr (refl, refl);
  mongo_db = inr (refl, refl);
}

parse_text_lem_example : parse_text garbage (read some_root) ≡ loaded some_config
parse_text_lem_example = parse_text_lem garbage some_root some_config some_root-ShowsConfig

-- The directory of the project, below another one.
abbrev home : Bytes
home = codes "/srv/linkedon-push"

check_pro_dir_iff_example :
    (check_pro_dir (codes "linkedon-push") [] [] (some home) ≡ true)
    ↔ IsProDir (pro_suffix (codes "linkedon-push") []) home
check_pro_dir_iff_example = check_pro_dir_iff (codes "linkedon-push") [] [] home (omega arith)

-- A machine on which every call succeeds.
abbrev machine : Machine (List Bytes)
machine = record {
  files = λ name. some [];
  reader = λ json. read some_root;
  garbage = garbage;
  cwd = some home;
  buffer = [];
  decimal = λ n. codes "9000";
  connect = λ host port. some [];
  redis_command = λ args s. (some (array_of []), s);
  first_fork = child;
  second_fork = child;
  chdir = true;
  boot = boot;
  pid_fd = none;
}

abbrev up : Server
up = record booted { server_key = codes "h:9000"; task_key = codes "ph:9000" }

comes_to_serve : main_program machine [] ≡ serving some_config up []
unfolding main_program parse_arguments linkedon_push.Config.init_config check_pro_dir
    linkedon_push.Utils.get_current_direct linkedon_push.Utils.index_of linkedon_push.Redis.auth
    linkedon_push.Redis.select_db linkedon_push.Server.Start.initializer
    linkedon_push.Server.Start.run linkedon_push.Thread.make_thread
comes_to_serve = refl

main_program_serves_example : IsServing machine home (parse_arguments [] []) some_config up []
main_program_serves_example =
    main_program_serves machine [] some_config up [] home refl (omega arith) comes_to_serve
