-- ===== src/Tests/Provisioning.antt =====
-- The theorems on the provisioner, on a node in memory.
use flox_controller.Prelude.{
  true, false, none, some, [], ◌∷◌, string_eq, ◌≡◌, ◌≢◌, refl, has_prefix, ap, subst, sym, ◌∙◌,
}
use flox_controller.Action.{Ends}
use flox_controller.Action.Leaves.{Leaves}
use flox_controller.Filepath.{dir, join_path}
use flox_controller.Host.{link_at}
use flox_controller.Host.Laws.{KeepsLinks, beneath}
use flox_controller.EnvController.Types.{EnvRef, RealizeRequest}
use flox_controller.Provisioner.{ExecProvisioner, gcroot_path, activation_gcroot_path}
use flox_controller.Provisioner.Roots.{write_gcroot}
use flox_controller.Provisioner.Subtree.{staging_of}
use flox_controller.Provisioner.Realize.{realize}
use flox_controller.Provisioner.Names.{tmp_of, shadow, IsPlainRef}
use flox_controller.Provisioner.Atomicity.{
  IsApart, IsAdded, KeptOrAdded, realize-Ends, realize-Leaves, write_gcroot-takes_shadow,
}
use flox_controller.Provisioner.Links.{link_of}
use flox_controller.Tests.Node.{Node, node, node-IsPlain, node-KeepsLinks, put}

abbrev pub p : ExecProvisioner
p = record {
  env_root = "/envs";
  gcroot_base = "/gcroots/env";
  ctr_bin = "";
  containerd_address = "";
  nsenter = "";
  systemd_run_bin = "";
}

abbrev pub web : EnvRef
web = record { folder = "tools"; name = "web" }

abbrev db : EnvRef
db = record { folder = "tools"; name = "db" }

abbrev pub fresh : Node
fresh = record {
  environ = "PATH=/bin" ∷ "GITHUB_ACCESS_TOKEN_FILE=/token" ∷ "NIX_CONFIG=a" ∷ [];
  files = put "/token" "secret\n" (λ q. none);
  links = put "/gcroots/env/tools/db" "/nix/store/db" (λ q. none);
  entries = "linux.web-dev" ∷ [];
}

abbrev pub request : RealizeRequest
request = record { ref = web; manifest_toml = "v = 1"; lock = ""; consumption = "image" }

web-IsPlainRef : IsPlainRef web
unfolding flox_controller.Filepath.elements flox_controller.Prelude.nat_eq string_eq
web-IsPlainRef = record { folder = refl; name = refl; name_whole = refl }

db-IsPlainRef : IsPlainRef db
unfolding flox_controller.Filepath.elements flox_controller.Prelude.nat_eq string_eq
db-IsPlainRef = record { folder = refl; name = refl; name_whole = refl }

based : p.gcroot_base ≢ ""
based e = cc

web_root : gcroot_path p web ≡ "/gcroots/env/tools/web"
unfolding gcroot_path join_path string_eq has_prefix flox_controller.Prelude.join
    flox_controller.Prelude.nat_eq
web_root = refl

db_root : gcroot_path p db ≡ "/gcroots/env/tools/db"
unfolding gcroot_path join_path string_eq has_prefix flox_controller.Prelude.join
    flox_controller.Prelude.nat_eq
db_root = refl

pub web_staging : staging_of p web ≡ "/envs/tools/web/flox-env-tools-web-subtree"
unfolding staging_of join_path string_eq has_prefix flox_controller.Prelude.join
    flox_controller.Prelude.nat_eq
web_staging = refl

web_activation : activation_gcroot_path p web ≡ "/gcroots/activation/tools/web"
unfolding activation_gcroot_path join_path string_eq dir flox_controller.Prelude.split_last
    flox_controller.Prelude.nat_eq has_prefix flox_controller.Prelude.join
web_activation = refl

base_dir : dir p.gcroot_base ≡ "/gcroots"
unfolding dir flox_controller.Prelude.split_last flox_controller.Prelude.nat_eq has_prefix
    flox_controller.Prelude.join string_eq
base_dir = refl

pub keeps : KeepsLinks node (dir p.gcroot_base)
keeps = subst (KeepsLinks node) (sym base_dir) node-KeepsLinks

below : beneath "/gcroots/env/tools/web" "/gcroots" ≡ true
unfolding string_eq has_prefix flox_controller.Prelude.nat_eq
below = refl

not_below : beneath "/gcroots/env/tools/web" "/envs/tools/web/flox-env-tools-web-subtree" ≡ false
unfolding string_eq has_prefix flox_controller.Prelude.nat_eq
not_below = refl

db_below : beneath "/gcroots/env/tools/db" "/gcroots" ≡ true
unfolding string_eq has_prefix flox_controller.Prelude.nat_eq
db_below = refl

db_not_below : beneath "/gcroots/env/tools/db" "/envs/tools/web/flox-env-tools-web-subtree" ≡ false
unfolding string_eq has_prefix flox_controller.Prelude.nat_eq
db_not_below = refl

tmp : tmp_of "/gcroots/activation/tools/web" ≡ "/gcroots/activation/tools/web.tmp"
tmp = refl

pub web-IsApart : IsApart p web (gcroot_path p web)
web-IsApart = record {
  inside = rw (web_root, base_dir) below;
  unstaged = rw (web_root, web_staging) not_below;
  not_activation = λ e. cc (sym web_root ∙ e ∙ web_activation);
  not_temporary = λ e. cc (sym web_root ∙ e ∙ ap tmp_of web_activation ∙ tmp);
}

db-IsApart : IsApart p web (gcroot_path p db)
db-IsApart = record {
  inside = rw (db_root, base_dir) db_below;
  unstaged = rw (db_root, web_staging) db_not_below;
  not_activation = λ e. cc (sym db_root ∙ e ∙ web_activation);
  not_temporary = λ e. cc (sym db_root ∙ e ∙ ap tmp_of web_activation ∙ tmp);
}

realize-Ends_example :
    Ends
      (λ res s'.
        IsAdded node node-IsPlain p keeps request web-IsApart res.store_path
        × (link_at node s' res.gcroot_path ≡ some res.store_path)
        × (res.gcroot_path ≡ gcroot_path p web))
      (KeptOrAdded node node-IsPlain p keeps request web-IsApart fresh)
      (realize node p request fresh)
realize-Ends_example = realize-Ends node node-IsPlain p keeps request web-IsApart fresh

db-ne-web : db ≢ web
db-ne-web e = cc

db-ne-shadow : db ≢ shadow web
db-ne-shadow e = cc

realize-Leaves_example : Leaves (link_of node (gcroot_path p db)) (realize node p request)
realize-Leaves_example =
    realize-Leaves node node-IsPlain p keeps request db based web-IsPlainRef db-IsPlainRef db-ne-web
      db-ne-shadow db-IsApart

write_gcroot-takes_shadow_example :
    Ends
      (λ _ s'. link_at node s' (gcroot_path p (shadow web)) ≡ none)
      (λ _. Unit {0})
      (write_gcroot node (gcroot_path p web) "/nix/store/a" fresh)
write_gcroot-takes_shadow_example =
    write_gcroot-takes_shadow node node-IsPlain p web "/nix/store/a" fresh based web-IsPlainRef
