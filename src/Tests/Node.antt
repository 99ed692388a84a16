-- ===== src/Tests/Node.antt =====
-- A node in memory, for the tests: its files and links by path, one listing for every directory, and
-- a flox that leaves a run link, the listing that has it, and a lock.
use flox_controller.Prelude.{
  String, ◌<>◌, false, Option, none, some, List, [], ◌∷◌, ◌==◌, string_eq, if◌then◌else◌, Result,
  ok, err, not_found, ◌≡◌, ◌≢◌, refl, arith, path_of_eq, eq_self, has_prefix, strip_prefix, nat_eq,
}
use flox_controller.Host.{Host, Command, link_at, to_option}
use flox_controller.Host.Laws.{IsPlain, KeepsLinks, beneath}

pub record Node : Type 0 where
  pub environ : List String
  pub files : String → Option String
  pub links : String → Option String
  pub entries : List String

abbrev pub or_missing : Option String → Result String
or_missing none = err (not_found "no such file")
or_missing (some text) = ok text

abbrev pub put : String → String → (String → Option String) → String → Option String
put path text m q = if q == path then some text else m q

abbrev drop : String → (String → Option String) → String → Option String
drop path m q = if q == path then none else m q

abbrev pub moved : String → String → Option String → Node → Result (Unit {0}) × Node
moved old new none s = (err (not_found old), s)
moved old new (some target) s = (
  ok tt,
  record s { links = λ q. if q == new then some target else if q == old then none else s.links q },
)

abbrev pub run_link : String
run_link = "/envs/tools/web/.flox/run/linux.web-dev"

abbrev pub ran : Command → Node → Result String × Node
ran cmd s =
    if cmd.program == "flox"
    then (
      ok "",
      record s {
        links = put run_link "/nix/store/b-web-dev" s.links;
        files = put "/envs/tools/web/.flox/env/manifest.lock" "{}" s.files;
        entries = "linux.web-dev" ∷ [];
      },
    )
    else (ok "/nix/store/a-subtree\n", s)

abbrev pub node : Host
node = record {
  State = Node;
  environ = λ s. s.environ;
  read_file = λ s path. or_missing (s.files path);
  read_dir = λ s path. ok s.entries;
  readlink = λ s path. or_missing (s.links path);
  mkdir_all = λ path s. (ok tt, s);
  write_file = λ path text s. (ok tt, record s { files = put path text s.files });
  remove = λ path s. (ok tt, record s { links = drop path s.links });
  remove_all = λ path s. (
    ok tt,
    record s {
      links = λ q. if beneath q path then none else s.links q;
      files = λ q. if beneath q path then none else s.files q;
    },
  );
  symlink = λ target path s. (ok tt, record s { links = put path target s.links });
  rename = λ old new s. moved old new (s.links old) s;
  run = ran;
  quote = λ s. "\"" <> (s <> "\"");
}

-- A rename of a link, by what stands at its old path.
module _ (s : Node) (old new q : String) where
  moved-others :
      (o : Option String)
      → q ≢ old
      → q ≢ new
      → link_at node (moved old new o s).1 q ≡ link_at node s q
  moved-others none ne ni = refl
  moved-others (some target) ne ni = ground (arith, path_of_eq q old, path_of_eq q new)

  moved-new :
      (o : Option String) (target : String)
      → to_option (or_missing o) ≡ some target
      → link_at node (moved old new o s).1 new ≡ some target
  moved-new none target h = cc
  moved-new (some found) target h = ground (arith, h, eq_self new)

  moved-old :
      (o : Option String)
      → old ≢ new
      → (moved old new o s).0 ≡ ok tt
      → link_at node (moved old new o s).1 old ≡ none
  moved-old none ne h = cc
  moved-old (some found) ne h = ground (arith, path_of_eq old new, eq_self old)

  moved-failed :
      (o : Option String)
      → (moved old new o s).0 ≢ ok tt
      → link_at node (moved old new o s).1 q ≡ link_at node s q
  moved-failed none h = refl
  moved-failed (some found) h = absurd (h refl)

pub node-IsPlain : IsPlain node
node-IsPlain = record {
  link-mkdir_all = λ s path q. refl;
  link-write_file = λ s path text q. refl;
  link-remove = λ s path q ne. ground (arith, path_of_eq q path);
  link-remove_all = λ s path q out. ground arith;
  link-symlink = λ s target path q ne. ground (arith, path_of_eq q path);
  link-symlink_self = λ s target path done. ground (arith, eq_self path);
  link-rename = λ s old new q target ne ni linked. moved-others s old new q (s.links old) ne ni;
  link-rename_new =
      λ s old new target linked done. moved-new s old new old (s.links old) target linked;
  link-rename_old =
      λ s old new target ne linked done. moved-old s old new old (s.links old) ne done;
  link-rename_failed = λ s old new q failed. moved-failed s old new q (s.links old) failed;
  content-mkdir_all = λ s path q. refl;
  content-remove_all = λ s path q out. ground arith;
  content-remove_all_gone = λ s path q done below. ground arith;
  content-write_file = λ s path text q ne. ground (arith, path_of_eq q path);
  content-write_file_self = λ s path text done. ground (arith, eq_self path);
}

run_link_outside : beneath run_link "/gcroots" ≡ false
unfolding has_prefix strip_prefix string_eq nat_eq
run_link_outside = refl

pub node-KeepsLinks : KeepsLinks node "/gcroots"
node-KeepsLinks = record {
  link-run = λ s cmd q inside. ground (arith, path_of_eq q run_link, run_link_outside);
}
