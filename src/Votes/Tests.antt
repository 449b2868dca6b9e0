-- ===== src/Votes/Tests.antt =====
-- Votes on the website, in the sample database.
use aurweb.Prelude.{◌≡◌, refl}
use aurweb.Samples.{db, alice, foo, bar, bob, request_by}
use aurweb.Creds.{has_credential}
use aurweb.Votes.{vote, unvote}
use aurweb.Votes.Counting.{IsCounted, vote-IsCounted, unvote-IsCounted, unvote-vote}

counted : IsCounted db
counted = (refl, (refl, tt))

vote-IsCounted_example : IsCounted (vote (request_by alice 900) foo db)
vote-IsCounted_example = vote-IsCounted (request_by alice 900) foo db counted

unvote-IsCounted_example : IsCounted (unvote (request_by bob 900) bar db)
unvote-IsCounted_example = unvote-IsCounted (request_by bob 900) bar db counted

unvote-vote_example :
    (unvote (request_by alice 900) foo (vote (request_by alice 900) foo db)).votes ≡ db.votes
unfolding has_credential
unvote-vote_example = unvote-vote (request_by alice 900) foo db refl refl

-- A vote that is there already changes nothing.
vote_again : vote (request_by bob 900) foo db ≡ db
unfolding vote
vote_again = refl
