-- ===== src/Routes/Tests.antt =====
-- The forms, in the sample database.
use aurweb.Prelude.{◌≡◌, refl, true, false}
use aurweb.Creds.{has_credential, cred_filters}
use aurweb.Routes.{redirect}
use aurweb.Routes.Closing.{request_close_post}
use aurweb.Votes.Counting.{IsCounted}
use aurweb.Routes.Undoing.{pkgbase_comment_undelete-delete}
use aurweb.Routes.Comments.{pkgbase_comment_delete, pkgbase_comment_undelete, pkgbase_comment_post}
use aurweb.Routes.Ownership.{pkgbase_adopt_post, pkgbase_merge_post}
use aurweb.Routes.Rights.{
  pkgbase_adopt_post-package_bases, pkgbase_comment_post-author, pkgbase_merge_post-IsCounted,
}
use aurweb.Samples.{db, alice, bob, carol, request_by}

-- Bob asks for a package base that nobody maintains, and names his own request.
pkgbase_adopt_post-package_bases_example :
    (pkgbase_adopt_post (request_by bob 900) "bar" "" 2 db).1.package_bases ≡ db.package_bases
unfolding has_credential
pkgbase_adopt_post-package_bases_example =
    pkgbase_adopt_post-package_bases (request_by bob 900) "bar" "" 2 db refl

-- Alice edits the comment of Bob.
pkgbase_comment_post-author_example :
    (pkgbase_comment_post (request_by alice 900) "foo" 1 "No." false "" false db).1.comments
    ≡ db.comments
pkgbase_comment_post-author_example =
    pkgbase_comment_post-author (request_by alice 900) "foo" 1 "No." false "" false db
      ((λ _. refl), tt)

pkgbase_merge_post-IsCounted_example :
    IsCounted (pkgbase_merge_post (request_by carol 900) "foo" "bar" "" true "" db).1
pkgbase_merge_post-IsCounted_example =
    pkgbase_merge_post-IsCounted (request_by carol 900) "foo" "bar" "" true "" db (refl, (refl, tt))

-- Bob deletes his comment and restores it.
pkgbase_comment_undelete-delete_example :
    (pkgbase_comment_undelete
      (request_by bob 900)
      "foo"
      1
      ""
      (pkgbase_comment_delete (request_by bob 900) "foo" 1 "" db).1).1.comments
    ≡ db.comments
pkgbase_comment_undelete-delete_example =
    pkgbase_comment_undelete-delete (request_by bob 900) "foo" 1 "" db ((λ _. (refl, refl)), tt)

-- Bob filed the request of ID 1, and may close it; alice may not.
closed_by_filer : (request_close_post (request_by bob 1000) 1 "Done." db).0 ≡ redirect "/requests"
unfolding request_close_post has_credential cred_filters
closed_by_filer = refl

refused_to_stranger : (request_close_post (request_by alice 1000) 1 "Done." db).1 ≡ db
unfolding request_close_post has_credential cred_filters
refused_to_stranger = refl
