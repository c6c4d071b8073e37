-- ===== src/Lib.antt =====
-- The server of a marketplace for businesses, written in Python with Django. Businesses publish
-- posts, reels and stories, which moderators review, and pay for being featured.
--
-- The parts that are modelled, and how they interact:
-- - monetization/: the featured subscriptions of businesses, with the mirror `is_featured` on the
--   business. `activate_subscription` and `deactivate_subscriptions` are the two operations; the
--   daily sweep `expire_featured_subscriptions` calls the second.
-- - payments/: payments of plans. `initiate_subscription_payment` creates the rows and asks the
--   gateway for a page; the gateway's webhook (`process_webhook_event`) and the daily
--   `reconcile_pending_transactions` apply its final answer, which activates a featured
--   subscription by `activate_subscription`. payments/gateways/paymob.py is the gateway Paymob, and
--   payments/views.py the webhook's view, which checks the signature first.
-- - moderation/: the queue of content that awaits review, filled by a signal at the content's first
--   save, and the decisions `approve` and `reject`, which write the queue row, the content row and
--   the audit log; `check_moderation_sla` reports rows that wait too long.
-- - content/: reels, from the upload over the transcoding, which may run beside the owner's requests,
--   to the row in the moderation queue.
-- - stories/: stories, which are public for a day after a moderator's approval, their views, and the
--   sweep that marks the expired ones.
-- - feed/: pages of published posts and reels, of the followed businesses first and then of the
--   others, each resumed from the position of the last entry.
-- - search/: pages of businesses and products that match filters and a text, ordered by rank or by
--   time, each resumed from the token of the last result.
-- - chat/: conversations between two accounts, found or begun by `ConversationStartView`; their
--   messages, sent by `MessageSendView`, and the connections of `ChatConsumer`, whose frames mark
--   messages as delivered or read and keep an account online.
-- - notifications/: `dispatch_notification` writes the in-app row and sends a push to each device,
--   unless the user has switched the category off; moderation decisions, follows and comments ask
--   for one.
-- - social/: follows, likes, saves, comments and shares, with the counters on businesses, content
--   and comments.
-- - reports/: reports of content and comments, counted on a comment and hiding it at a threshold.
-- - ratings/: one rating for each customer and business, and the columns of the business that are
--   computed from them.
--
-- The files:
-- - Prelude and its children: the names of the libraries, tables as lists of rows with Django's
--   querysets over them, texts as lists of code points, signed integers, and their lemmas.
-- - Money: amounts and their rounding to cents (payments/webhooks.py `_to_cents`,
--   payments/gateways/paymob.py `amount_to_cents`); Money/Rounding has the error of the rounding.
-- - Monetization: monetization/models.py, services.py and tasks.py. Mirror, Activation and Expiry
--   below it are the proofs about the flag, the activation, and the deactivation and sweep.
-- - Payments/Records: payments/models.py and the event of payments/views.py. Payments/Webhook:
--   payments/webhooks.py; Payments/Initiate: payments/services.py; Payments/Reconcile:
--   payments/tasks.py. Below Webhook, Steps splits a call into the three things it can do, Chosen and
--   Invariant and Sound carry the invariant, and Runs, Idempotent, Atomic and Live use them.
-- - Payments/Json: the values of `json.loads`; Payments/Paymob: the signature and the answers, and
--   below it Requests the requests and Started their ends; Payments/Views: the webhook's view, with
--   Gate about the signature and Parsed about the callback and the inquiry.
-- - Moderation/Records: moderation/models.py; Moderation/Signals: moderation/signals.py;
--   Moderation/Services: moderation/services.py; Moderation/Sla: moderation/tasks.py.
-- - Content/Reels: content/models.py `Reel` and the writes of content/views.py; Content/Tasks:
--   content/tasks.py. Below it, Queued and its Runs are about the queue rows, and Stale about what
--   happens while ffmpeg runs.
-- - Stories/Services: stories/models.py, views.py and tasks.py; Stories/Day is about the day and the
--   sweep.
-- - Feed: feed/services.py and the cursor values of feed/cursor.py. Feed/Order has the filters as
--   strict orders of the sort keys and the lemmas on sorting; Feed/Pages is about the tiers and
--   Feed/Home about a whole page. Feed/Exact joins the tiers to the pages of Paging; Feed/Rest,
--   Feed/Walk and Feed/Whole are about what is left behind a cursor, one page, and all pages.
-- - Paging: pages of a sorted table, as the feed and the search read them, and what a walk over them
--   reads (Paging/Sorted, Walk and Sources).
-- - Search/Cursor: search/cursor.py; Search/Filters, Services and Results: search/services.py;
--   Search/Views: search/views.py. Search/Wire is about the tokens, Search/Exact about one page and
--   Search/Walk about all pages.
-- - Chat/Records: chat/models.py; Chat/Start: the view that starts a conversation, of chat/views.py.
--   Chat/Paired and Chat/Started are about the participants and a repeated start. Chat/Messages:
--   the send and the fetch of chat/views.py, and chat/consumers.py, where a frame is its parsed value;
--   Chat/Forward and Chat/Runs are about the messages that a run leaves.
-- - Notifications/Records, Messages, Services and Tasks: notifications/models.py, messages.py,
--   services.py and tasks.py. Words, Delivery and Accepted below Tasks are about a dispatch;
--   Moderation/Services/Notified joins it to the moderators' decisions.
-- - Social/Records: social/models.py and the columns that social/ counts in; Social/Follows, Targets,
--   Marks and Comments: social/views.py and services.py, with the answers of Social/Responses.
--   Social/Counted is the invariant of the counters, Social/Toggles the repeated follow.
-- - Reports/Services: reports/models.py, targets.py, services.py and views.py; Reports/Hidden is about
--   the hidden comments.
-- - Ratings/Services: ratings/models.py and services.py; Ratings/Latest is the table as a map, and
--   Ratings/Aggregates the computed columns.
-- - The Tests of each part run the definitions on small tables and apply the theorems to them.
--
-- How the state corresponds: a table is the list of its rows in key order, with the next key, and a
-- handler is a function from the tables to a result and the new tables. An atomic block is one
-- function; an exception in it is a value without tables, and the caller keeps those it had. Row
-- locks and concurrent requests are the order of the calls. Columns that no operation reads are left
-- out. Times are natural numbers of seconds. A rank of the search is a float, which stands by its
-- place in the database's order of floats.
--
-- The tables of social/ and reports/ hold the rows that a default manager sees, those not deleted.
--
-- Parameters stand for code outside the repository and for the environment: the clock, `str.upper`,
-- `str.lower`, the digit values that `\d` and `int` read, the characters that `str.strip` removes,
-- `int` of a text, `str` of a list or a dict, the key that a filter reads from a JSON value, `json.loads`, the HMAC, `urlencode`, the answers to HTTP
-- requests, which may be an exception or any status with any body, the gettext catalogs, the
-- Firebase client, the end of the work with ffmpeg, the database's average, `Decimal` of a text, the
-- class `\w`, and the database's full-text match, rank and `icontains`. Where the payment operations are taken alone, the
-- gateway's answers are a parameter as well, which may be an exception, nothing, or any answer. Only
-- the digits of a number are on fuel, one more than the number, which is enough since each step
-- divides by ten (Prelude/Decimals); all other recursion is on the rows of a table or on a value, so
-- every operation returns.
--
-- Not modelled: the wire form of a feed cursor, the vectors of the full-text search, which the
-- database computes, HTTP, serializers, permissions, the admin, Celery and Redis, log messages, and
-- the apps of the repository that the list above does not name. Times, numbers and texts have no
-- largest value: the OverflowError of a plan so long that its end is beyond Python's last date, the
-- DataError of a number out of a column's range, such as a category in the search, and that of a
-- text longer than its column, such as a gateway_reference of more than 100 characters, are left
-- out. So are foreign keys: a caller that has a plan has a stored one.
pub mod Prelude
pub mod Money
pub mod Paging
pub mod Monetization
pub mod Payments
pub mod Notifications
pub mod Moderation
pub mod Social
pub mod Reports
pub mod Search
pub mod Chat
pub mod Ratings
pub mod Content
pub mod Stories
pub mod Feed
