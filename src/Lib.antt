-- ===== src/Lib.antt =====
-- The Prime Pizza backend: a model of the program's core and its theorems.
--
-- The program is a web service in Python over a relational database (SQLAlchemy) and Redis. It
-- sells pizzas: a customer fills a cart, a coupon lowers its price, the checkout turns the cart
-- into an order, the kitchen moves the order through its statuses, and the customer follows it.
-- The services of app/services call the repositories of app/repositories, which read and write
-- the rows of app/models.
--
-- How the program corresponds to the model
--
-- - `Store.World` is the whole state: the rows as the session sees them, the rows as last
--   committed, the keys in Redis, the clock, and the next free key of a row. A method of a service
--   is a computation `Service a` (Base/Exec.antt): it takes a world and gives a result, which is
--   `ok` or one of the exceptions of app/core/exceptions.py, and the world after it. `commit`
--   and `rolled_back` are the session's `commit` and `rollback`.
-- - A table is the list of its rows and a repository's query is a search of that list. The program's
--   session flushes what it changes, so that a query finds the rows as they are and their columns have
--   the values last assigned. It refreshes no relationship that it has loaded (`autoflush=False`,
--   `expire_on_commit=False`): where a method adds a row by its foreign key to a collection that it has
--   loaded, its later reads and its answer do not have it. The cart (Cart/Session.antt), the wishlist
--   (`answer_loaded`) and the methods on a placed order (`as_loaded`) are modelled so.
-- - A relationship between rows is the key it stands on, or the list of the rows that belong to a
--   row (a cart's items, an order's timeline). A soft-deleted row stays, with `deleted` set.
-- - Keys are numbers that `new_id` gives out in order, where the program draws random UUIDs.
-- - An amount of money is a natural number of cents, where the program has a `Decimal` with two
--   places. A rate or a percentage has two places too, so that a product is rounded as in
--   app/services/pricing.py (Money.antt). Numbers have no bound, as in Python; subtraction is only
--   used where the program's own tests make it exact, or written out as a maximum with zero.
-- - Text is the list of its code points (Text.antt).
-- - A field that may be null in Python is an `Option`. Columns that are NOT NULL are never null.
-- - One loop has fuel, that of app/utils/uploads.py, which reads until the client has sent everything;
--   Uploads/Reading.antt has what follows when the fuel is more than the bytes. Every other loop of the
--   modelled code goes through a list once, and is structural recursion. All definitions are total and
--   can be run.
--
-- The files
--
-- - Base.antt and Base/: lists, counting, Boolean tests, the computations and the rules to prove
--   what holds before and after them. Text.antt, Errors.antt: text and the exceptions.
-- - Enums.antt: app/common/enums.py. Money.antt: the rounding of app/services/pricing.py.
-- - Catalog.antt, Pricing.antt: the rows of products, variants, extras, crusts and deals, and the
--   price of a line.
-- - Coupon.antt: app/services/coupon.py and app/repositories/coupon.py. Commerce.antt: the fee of
--   app/services/delivery.py, the tax of app/services/tax.py and the total that the cart makes of them.
-- - Models/: the rows of users, addresses, carts and orders. Store.antt: the world.
-- - Authorization/: app/authorization, that is roles, permissions, the policy tables, the
--   requirements of an endpoint and the ownership of a resource.
-- - Auth/: app/services/auth.py. State.antt has a world of its own, with the accounts and the session
--   keys in Redis, and times in microseconds; Sessions.antt is app/repositories/redis_auth.py, Tokens.antt app/security/jwt.py,
--   Requests.antt the checks of app/dependencies/auth.py, SignedIn.antt the three ways to a token. Signing a token and hashing a password belong
--   to libraries: they are the fields of the record `Crypto`, an argument of every method.
-- - Addresses.antt: app/services/address.py and app/repositories/address.py, with the one default
--   address of a user.
-- - Cart/: app/services/cart.py, app/services/order_summary.py and app/repositories/cart.py. Lines.antt builds and prices a line,
--   Recalculate.antt computes a cart's totals, Edit.antt has the changes to the lines, Session.antt
--   what the session sees of them, Service.antt the methods and Summary.antt the order summary.
-- - Wishlist.antt and Wishlist/: app/services/wishlist.py and app/repositories/wishlist.py.
-- - RateLimiting/: app/middleware/rate_limiting.py, with a world of its own, that is the counters and
--   the clock. Policies.antt has the policy of a path and the client's address (app/utils/network.py),
--   Windows.antt the counters, Dispatch.antt the middleware. Its three windows are taken at one instant.
-- - SystemSettings/: app/services/system_settings.py (Known.antt, Service.antt, View.antt), with
--   app/services/commerce_config.py (Commerce.antt) and app/middleware/maintenance.py (Maintenance.antt).
--   A change leaves its entry of the audit trail; a list of settings is in the order of the table, where
--   the program sorts it by key.
-- - AdminCoupons.antt: `create`, `update`, `set_active` and `delete` of app/services/admin_coupon.py, and
--   the validator of the request; Calls.antt has the requests, Codes.antt and Kept.antt say what they keep of
--   the table.
-- - Uploads.antt: `read_upload_limited` of app/utils/uploads.py.
-- - Checkout/: app/services/checkout.py, and the placement of an order in app/services/order.py.
--   Issues.antt is the validation, Draft.antt builds the order's row, Redis.antt has the lock and the
--   idempotency key of app/services/order_cache.py, Place.antt composes them in the order of the
--   program, with the rollback and the release of the lock. Earlier.antt and SameCart.antt say which
--   order and which cart an answer is about. Stable/ has requests of any
--   users, with other work between them.
-- - Orders/: the rest of app/services/order.py, with app/repositories/order.py. Status.antt is the
--   table of transitions, Table.antt the repository, Views.antt the answers, Manage.antt the methods,
--   Moved.antt what a new status makes of a row, Cache.antt the tracking cache.
-- - Kitchen/: app/services/kitchen.py, that is the columns of the board, the cards, the named
--   actions and the status endpoint.
-- - Tests/: the rows of a small shop and runs of the program on them.
--
-- How the parts interact
--
-- The cart's service prices its lines through the catalog and asks the coupon's service for a
-- discount. The checkout runs the cart's recalculation again before it validates, and once more
-- before it writes the order. It takes the lock in Redis first and releases it last. The order
-- service and the kitchen share the method that changes a status; it commits and then drops the
-- tracking cache's key of that order.
--
-- What is not modelled
--
-- - The bootstrap of the chef's account, pagination, the administration of the
--   catalog, the listing and usage report of coupons, notifications and dashboards. The cart and the checkout take the
--   `CommerceConfig` of the request as an argument; SystemSettings/Commerce.antt has where it comes from.
-- - Python's `Decimal` of a text is an argument of SystemSettings/, at the texts that are no negative
--   number: a negative fee or tax, which the settings service accepts, is outside the model.
-- - Email and the copies of orders to a spreadsheet, which run after the commit, whose failures the
--   program swallows, and which nothing modelled reads. Logging.
-- - HTTP: routing, parsing of requests and response envelopes.
-- - Concurrent sessions: a row lock is taken and not contended. The checkout lock does
--   not expire, nor does an idempotency key, which in the program lives for a day or longer.
-- - The coordinates of an address, the card's telephone number and payment method, and the cache of
--   the checkout's answer, which no code reads.
pub mod Base
pub mod Text
pub mod Errors
pub mod Enums
pub mod Money
pub mod Catalog
pub mod Pricing
pub mod Coupon
pub mod Commerce
pub mod Models
pub mod Store
pub mod Authorization
pub mod Auth
pub mod Addresses
pub mod Cart
pub mod Orders
pub mod Checkout
pub mod Kitchen
pub mod Uploads
pub mod Wishlist
pub mod SystemSettings
pub mod AdminCoupons
pub mod RateLimiting
pub mod Tests
