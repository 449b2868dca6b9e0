-- ===== src/Serve/Tests.antt =====
-- Commands over SSH, in the sample database.
use aurweb.Serve.Replacing.{pkgbase_set_comaintainers-named}
use aurweb.Prelude.{ℕ, ◌≡◌, ◌⊎◌, refl, true, [], ◌∷◌, List, any, arith, String}
use aurweb.Votes.Counting.{IsCounted}
use aurweb.Votes.{vote, unvote}
use aurweb.Creds.{has_credential}
use aurweb.Actions.{request_adoption}
use aurweb.Serve.{
  Exception, raised, user_email_verified, pkgbase_has_full_access, log_ssh_login, returned,
  require_pkgbase,
}
use aurweb.Serve.Commands.{pkgbase_adopt, pkgbase_vote, pkgbase_unvote}
use aurweb.Serve.Ownership.{
  pkgbase_set_comaintainers, pkgbase_disown, row_of, replace_comaintainers,
}
use aurweb.Serve.Dispatch.{ServeConfig, serve, is_readonly, pkgbase_of_path}
use aurweb.Serve.Voting.{
  OncePerUser, pkgbase_vote-IsCounted, pkgbase_unvote-IsCounted, pkgbase_vote-OncePerUser,
}
use aurweb.Serve.Access.{
  OneAdoption, pkgbase_adopt-package_bases, pkgbase_adopt-OneAdoption, request_adoption-OneAdoption,
  serve-unverified,
}
use aurweb.Serve.Pushing.{serve-push, OnlyRaises}
use aurweb.Serve.Agreement.{pkgbase_vote-vote, pkgbase_unvote-unvote}
use aurweb.Serve.Permissions.{pkgbase_set_comaintainers-denied, pkgbase_disown-denied}
use aurweb.Comaintainers.{of_base}
use aurweb.Serve.Comaintaining.{replace_comaintainers-of_other, replace_comaintainers-any}
use aurweb.Samples.{db, foo, bob, request_by, session, options, alice, bar, dave}

abbrev config : ServeConfig
config = record {
  enable_maintenance = true;
  maintenance_exc = "192.0.2.1" ∷ [];
  repo_regex = λ name. true;
  hook_access = true;
  git_update_cmd = "/usr/bin/aurweb-git-update";
}

-- Sets in the order in which the elements are given.
abbrev as_given : List ℕ → List ℕ
as_given us = us

once : OncePerUser db.votes
once u b = ground arith

one : OneAdoption db
one b = ground arith

pkgbase_vote-IsCounted_example : IsCounted (pkgbase_vote (session "alice") "foo" db).1
pkgbase_vote-IsCounted_example =
    pkgbase_vote-IsCounted (session "alice") "foo" db (refl, (refl, tt))

pkgbase_unvote-IsCounted_example : IsCounted (pkgbase_unvote (session "bob") "bar" db).1
pkgbase_unvote-IsCounted_example =
    pkgbase_unvote-IsCounted (session "bob") "bar" db once (refl, (refl, tt))

pkgbase_vote-OncePerUser_example : OncePerUser (pkgbase_vote (session "alice") "foo" db).1.votes
pkgbase_vote-OncePerUser_example = pkgbase_vote-OncePerUser (session "alice") "foo" db once

pkgbase_adopt-package_bases_example :
    ((pkgbase_adopt (session "alice") "bar" db).1.package_bases ≡ db.package_bases)
    × ((pkgbase_adopt (session "alice") "bar" db).1.comaintainers ≡ db.comaintainers)
pkgbase_adopt-package_bases_example = pkgbase_adopt-package_bases (session "alice") "bar" db

pkgbase_adopt-OneAdoption_example : OneAdoption (pkgbase_adopt (session "alice") "bar" db).1
pkgbase_adopt-OneAdoption_example = pkgbase_adopt-OneAdoption (session "alice") "bar" db one

request_adoption-OneAdoption_example : OneAdoption (request_adoption (request_by bob 900) foo db)
request_adoption-OneAdoption_example = request_adoption-OneAdoption (request_by bob 900) foo db one

-- Dave has not verified his address.
serve-unverified_example :
    (e : Exception) × ((serve as_given config (session "dave") "vote" ("vote" ∷ "foo" ∷ []) db
        ≡ (raised e, db))
      ⊎ (serve as_given config (session "dave") "vote" ("vote" ∷ "foo" ∷ []) db
          ≡ (raised e, log_ssh_login (session "dave") db)))
unfolding is_readonly user_email_verified
serve-unverified_example =
    serve-unverified as_given config (session "dave") "vote" ("vote" ∷ "foo" ∷ []) db refl refl

-- Dave pushes to a package base of Alice, in both spellings.
serve-push_example :
    OnlyRaises
      (session "dave")
      (serve as_given config
        (session "dave")
        "git-receive-pack"
        ("git-receive-pack" ∷ "/foo.git" ∷ [])
        db)
      db
    × OnlyRaises
        (session "dave")
        (serve as_given config (session "dave") "git" ("git" ∷ "receive-pack" ∷ "/foo.git" ∷ []) db)
        db
unfolding pkgbase_of_path
serve-push_example =
    serve-push as_given config (session "dave") "/foo.git" 10 4 db refl refl
      ((λ e. cc), ((λ e. cc), ((λ e. cc), ((λ e. refl), tt))))
      ((λ e. (refl, λ k. ground (arith, k))), ((λ e. cc), tt))
      ((λ e k. ground (arith, k)), ((λ e k. ground (arith, k)), tt))

-- Alice keeps Bob, drops Carol and adds Dave.
replace_comaintainers-any_example :
    any (row_of 10 4) (replace_comaintainers as_given 10 (2 ∷ 3 ∷ []) (4 ∷ 2 ∷ []) db).comaintainers
    ≡ true
replace_comaintainers-any_example =
    replace_comaintainers-any as_given 10 4 (2 ∷ 3 ∷ []) (4 ∷ 2 ∷ []) db (λ xs. refl) refl

pkgbase_vote-vote_example :
    ((pkgbase_vote (session "alice") "foo" db).1
      ≡ record (vote (request_by alice 1000) foo db) { refreshed = [] })
    × ((vote (request_by alice 1000) foo db).refreshed ≡ 10 ∷ [])
unfolding has_credential
pkgbase_vote-vote_example =
    pkgbase_vote-vote (session "alice") "foo" options foo alice db refl refl refl refl refl
      (refl, (refl, tt))

pkgbase_unvote-unvote_example :
    (pkgbase_unvote (session "bob") "bar" db).1
    ≡ record (unvote (request_by bob 1000) bar db) { refreshed = [] }
unfolding has_credential
pkgbase_unvote-unvote_example =
    pkgbase_unvote-unvote (session "bob") "bar" options bar bob db refl refl refl refl refl once
      (refl, (refl, tt))

pkgbase_set_comaintainers-denied_example :
    (e : Exception) × (pkgbase_set_comaintainers as_given (session "bob") "foo" ("bob" ∷ []) db
      ≡ (raised e, db))
unfolding pkgbase_has_full_access
pkgbase_set_comaintainers-denied_example =
    pkgbase_set_comaintainers-denied as_given (session "bob") "foo" ("bob" ∷ []) db refl refl

pkgbase_disown-denied_example :
    (e : Exception) × (pkgbase_disown as_given (session "bob") "foo" db ≡ (raised e, db))
unfolding pkgbase_has_full_access
pkgbase_disown-denied_example = pkgbase_disown-denied as_given (session "bob") "foo" db refl refl

replace_comaintainers-of_other_example :
    of_base 10 (replace_comaintainers as_given 20 [] (4 ∷ []) db).comaintainers
    ≡ of_base 10 db.comaintainers
replace_comaintainers-of_other_example =
    replace_comaintainers-of_other as_given 10 20 [] (4 ∷ []) db refl

abbrev dave_and_bob : List String
dave_and_bob = "dave" ∷ "bob" ∷ []

-- Alice names Dave and Bob; Dave gets a row.
pkgbase_set_comaintainers-named_example :
    ((pkgbase_set_comaintainers as_given (session "alice") "foo" dave_and_bob db).0 ≡ returned tt)
    × (any
          (row_of 10 4)
          (pkgbase_set_comaintainers as_given
            (session "alice")
            "foo"
            dave_and_bob
            db).1.comaintainers
        ≡ true)
unfolding require_pkgbase pkgbase_has_full_access
pkgbase_set_comaintainers-named_example =
    pkgbase_set_comaintainers-named as_given (session "alice") "foo" dave_and_bob 10 dave db
      (λ u xs. refl)
      ((refl, refl, refl), ((refl, refl, refl), ((refl, refl, refl), ((refl, refl, refl), tt))))
      (refl, (refl, tt)) refl refl refl (refl, (refl, tt))
