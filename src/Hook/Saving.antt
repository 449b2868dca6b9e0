-- ===== src/Hook/Saving.antt =====
-- `create_pkgbase` and `save_metadata`: what a push stores in the database. The names of the packages
-- of a file differ, since Packages.Name is unique.
use aurweb.Prelude.{
  ℕ, ◌+◌, Bool, false, String, Option, none, some, List, [], ◌∷◌, ◌++◌, ◌==◌, if◌then◌else◌, any,
  delete_where,
}
use aurweb.Models.{Db, Package, PackageBase, update_base}
use aurweb.Hook.Metadata.{SourceInfo}
use aurweb.Hook.Tables.{Store}
use aurweb.Hook.Inserting.{insert_packages}

abbrev pub new_base : ℕ → ℕ → String → ℕ → PackageBase
new_base id now pkgbase userid = record {
  id = id;
  name = pkgbase;
  num_votes = 0;
  out_of_date_ts = none;
  flagger_comment = "";
  submitted_ts = now;
  flagger_uid = none;
  maintainer_uid = some userid;
  packager_uid = none;
  submitter_uid = some userid;
  modified_ts = now;
}

unfoldable pub create_pkgbase : ℕ → String → ℕ → Store → ℕ × Store
create_pkgbase now pkgbase userid st =
    let id = st.next_package_base_id in
    let db = st.main in
    let main : Db = record db {
      package_bases = db.package_bases ++ new_base id now pkgbase userid ∷ [];
      notifications = db.notifications ++ record { package_base_id = id; user_id = userid } ∷ [];
    } in
    (id, record st { main = main; next_package_base_id = id + 1 })

-- The two updates of the package base's row.
abbrev pub adopt_if_orphan : ℕ → Option ℕ → Option ℕ
adopt_if_orphan user_id none = some user_id
adopt_if_orphan user_id (some m) = some m

abbrev pub pushed_base : ℕ → ℕ → PackageBase → PackageBase
pushed_base now user_id p = record p {
  modified_ts = now;
  packager_uid = some user_id;
  out_of_date_ts = none;
  maintainer_uid = adopt_if_orphan user_id p.maintainer_uid;
}

-- `EXISTS (SELECT * FROM Packages WHERE …)`
abbrev pub is_package_of : ℕ → List Package → ℕ → Bool
is_package_of b pkgs pkgid = any (λ p. if p.id == pkgid then p.package_base_id == b else false) pkgs

unfoldable pub delete_packages : ℕ → Store → Store
delete_packages b st =
    let db = st.main in
    let gone = is_package_of b db.packages in
    let main : Db = record db {
      packages = delete_where (λ p. p.package_base_id == b) db.packages;
    } in
    record st {
      main = main;
      sources = delete_where (λ r. gone r.package_id) st.sources;
      depends = delete_where (λ r. gone r.package_id) st.depends;
      relations = delete_where (λ r. gone r.package_id) st.relations;
      package_licenses = delete_where (λ r. gone r.package_id) st.package_licenses;
      package_groups = delete_where (λ r. gone r.package_id) st.package_groups;
    }

abbrev pub notify_if_missing : ℕ → ℕ → Db → Db
notify_if_missing b user_id db =
    if any (λ n. if n.package_base_id == b then n.user_id == user_id else false) db.notifications
    then db
    else record db {
      notifications = db.notifications ++ record { package_base_id = b; user_id = user_id } ∷ [];
    }

-- The user is put on the notification list on adoption.
abbrev pub notify_adopter : Option ℕ → ℕ → ℕ → Store → Store
notify_adopter none b user_id st = record st { main = notify_if_missing b user_id st.main }
notify_adopter (some m) b user_id st = st

unfoldable pub save_metadata : ℕ → ℕ → SourceInfo → PackageBase → Store → Store
unfolding delete_packages insert_packages
save_metadata now user_id metadata base st =
    let b = base.id in
    let updated = record st { main = update_base b (pushed_base now user_id) st.main } in
    notify_adopter base.maintainer_uid b user_id
      (insert_packages b metadata metadata.packages (delete_packages b updated))
