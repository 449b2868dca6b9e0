-- ===== src/Actions/Tests.antt =====
-- Actions on the package bases of the sample database.
use aurweb.Prelude.{◌≡◌, refl, [], ◌∷◌, some, ◌==◌, arith, count, Distinct, order_by, update_where}
use aurweb.Creds.{has_credential}
use aurweb.Comaintainers.{of_base, in_line}
use aurweb.Comaintainers.Rotation.{uid_of}
use aurweb.Requests.{ok}
use aurweb.Votes.{is_vote}
use aurweb.Votes.Counting.{IsCounted}
use aurweb.Actions.{set_maintainer, notifies, retry_disown, retry_merge, pkgbase_delete_instance}
use aurweb.Actions.Ownership.{retry_disown-maintainer, retry_disown-stranger}
use aurweb.Actions.Merging.{count-retry_merge_votes, count-retry_merge_notifications}
use aurweb.Actions.Counters.{pkgbase_delete_instance-IsCounted}
use aurweb.Samples.{db, foo, bar, alice, carol, dave, comaintainer, request_by}

bases-IsCounted : IsCounted db
bases-IsCounted = (refl, (refl, tt))

listed_once : Distinct uid_of (of_base 10 db.comaintainers)
listed_once = ((ground arith, tt), (tt, tt))

line : in_line 10 db.comaintainers ≡ comaintainer 2 4 ∷ comaintainer 3 5 ∷ []
unfolding order_by
line = refl

-- Bob, who is first in line, follows Alice.
retry_disown-maintainer_example :
    ((retry_disown (request_by alice 900) foo db).1.package_bases
      ≡ update_where (λ p. p.id == 10) (set_maintainer (some 2)) db.package_bases)
    × (in_line 10 (retry_disown (request_by alice 900) foo db).1.comaintainers
        ≡ comaintainer 3 2 ∷ [])
retry_disown-maintainer_example =
    retry_disown-maintainer (request_by alice 900) foo db (comaintainer 2 4 ∷ comaintainer 3 5 ∷ [])
      refl refl listed_once line

retry_disown-stranger_example : retry_disown (request_by dave 900) foo db ≡ (ok [], db)
unfolding has_credential
retry_disown-stranger_example = retry_disown-stranger (request_by dave 900) foo db refl refl refl

-- Bob voted for both package bases, and has one vote after the merge.
count-retry_merge_votes_example : count (is_vote 2 20) (retry_merge foo bar db).votes ≡ 1
count-retry_merge_votes_example = count-retry_merge_votes foo bar db 2 refl

count-retry_merge_notifications_example :
    count (notifies 1 20) (retry_merge foo bar db).notifications ≡ 1
count-retry_merge_notifications_example = count-retry_merge_notifications foo bar db 1 refl

pkgbase_delete_instance-IsCounted_example :
    IsCounted (pkgbase_delete_instance (request_by carol 900) foo "" db).1
pkgbase_delete_instance-IsCounted_example =
    pkgbase_delete_instance-IsCounted (request_by carol 900) foo "" db bases-IsCounted
