-- ===== src/Tests/Subscriptions.antt =====
-- Subscriptions to the topic "news".
use panda_go.Prelude.{
  ℕ, list_beq, true, none, ◌≡◌, refl, List, [], ◌∷◌, if◌then◌else◌, nat_eq, list_eq,
}
use panda_go.Go.Text.{GoString, lit}
use panda_go.Go.Map.{has_key, store}
use panda_go.Go.Outcome.{Outcome, returns, panics}
use panda_go.Go.Chan.{make_chan, try_send, receive, close_chan}
use panda_go.Publish.Single.{leave, remove_chan}
use panda_go.Publish.Single.Serving.{
  Session, reads, cancels, idles, Around, serves, offers, serve_session, start_session, happen_all,
}
use panda_go.Publish.Single.Served.{Within, happen_all-Within}
use panda_go.Publish.Topics.{
  Message, PubSubServer, new_pub_sub_server, open_subscription, publish, end_subscription,
  remove_subscriber, add_subscriber, update,
}
use panda_go.Publish.Topics.Delivery.{offered, subscribes, IsSound, publish-offers}
use panda_go.Publish.Topics.Steps.{Reach, here, next, subscribed, removed, left, reached-IsSound}
use panda_go.Publish.Topics.Ending.{ended_subscription_panics}
use panda_go.Publish.Single.{
  SingleServer, Publishing, published, new_single_server, enter, put_chan, publish_turn,
  start_publishing, Act, publishes, other, run_acts, Stays, run_acts-start_publishing,
}

abbrev news : GoString
news = lit "news"

abbrev subscribed_server : PubSubServer
subscribed_server = (open_subscription news new_pub_sub_server).1

abbrev hello : Message
hello = record { topic = news; content = lit "hello" }

abbrev one_step : Reach new_pub_sub_server subscribed_server
one_step = next here (subscribed news)

-- Two subscriptions to one topic, and what is left after the first of them has been removed
abbrev two_subscribed : PubSubServer
two_subscribed = (open_subscription news subscribed_server).1

abbrev one_left : PubSubServer
one_left =
    left news 0 ((1, tt) ∷ []) (record { buffer = []; capacity = 1; closed = true }) two_subscribed

reached-IsSound_example : IsSound one_left
unfolding open_subscription remove_subscriber has_key add_subscriber store list_beq lit close_chan
    update
reached-IsSound_example =
    reached-IsSound
      (next (next (next here (subscribed news)) (subscribed news)) (removed news 0 refl refl))

publish-offers_example :
    (t : PubSubServer) × (publish hello subscribed_server ≡ returns t)
    × (t.subscribers ≡ subscribed_server.subscribers)
    × (t.next ≡ subscribed_server.next)
    × ((ch : ℕ)
        → t.channels ch ≡ (
            if subscribes news ch subscribed_server
            then offered hello (subscribed_server.channels ch)
            else subscribed_server.channels ch))
publish-offers_example =
    publish-offers hello subscribed_server (reached-IsSound (next here (subscribed news)))

ended_subscription_panics_example : end_subscription news 0 subscribed_server ≡ panics
unfolding open_subscription
ended_subscription_panics_example = ended_subscription_panics news here here

abbrev entered : ℕ × SingleServer ℕ
entered = enter new_single_server

-- Publish takes a turn, the subscription takes the message, and Publish takes another turn.
abbrev acts : List (Act ℕ)
acts = publishes ∷ other (λ s. returns (record s { channels = λ i. make_chan 1 })) ∷ publishes ∷ []

abbrev still_publishing : Outcome (Publishing × SingleServer ℕ) → Publishing × SingleServer ℕ
still_publishing (returns q) = q
still_publishing panics = (published, new_single_server)

run_acts-start_publishing_example :
    Stays 0 []
      (still_publishing (run_acts 5 acts (start_publishing entered.1.subscribers, entered.1)))
unfolding run_acts publish_turn enter put_chan try_send
run_acts-start_publishing_example = run_acts-start_publishing 5 acts 0 [] entered.1 _ refl refl

-- Message 5 is sent, 6 is dropped by a full channel after 7, and then the subscriber goes away.
abbrev around : List (Around ℕ)
around =
    offers 5
    ∷ serves reads
    ∷ serves idles
    ∷ offers 7
    ∷ offers 6
    ∷ serves reads
    ∷ serves cancels
    ∷ []

abbrev session_or : Session ℕ → Outcome (Session ℕ) → Session ℕ
session_or s (returns t) = t
session_or s panics = s

abbrev served : Session ℕ
served =
    session_or (start_session new_single_server)
      (happen_all (λ m. none) around (start_session new_single_server))

happen_all-Within_example : Within served.written (5 ∷ 7 ∷ 6 ∷ [])
unfolding happen_all serve_session publish_turn enter leave remove_chan put_chan try_send receive
    close_chan
happen_all-Within_example = happen_all-Within (λ m. none) around new_single_server served refl
