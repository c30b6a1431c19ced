-- ===== src/Lib.antt =====
-- 3x-ui-glass is a web panel for Xray servers. This library is about the logic of its frontend,
-- frontend/src, that is not user interface: the client of the panel's event stream, the session of
-- its HTTP client, the code that turns the inbounds of a server into share links and share links
-- into outbounds, and the adapters between stored configurations and the values of a form.
--
-- - WebSocket: frontend/src/api/websocket.ts. Client is the object's fields with the browser's
--   sockets, timers and a log of effects; one function stands for each method and each callback
--   of a socket or a timer. WebSocket/Events has the steps: the panel calls the object, the
--   browser opens, fails, closes and feeds its sockets and fires its timers, in any order.
-- - Bridge: frontend/src/api/websocketBridge.ts and invalidationTracker.ts, from the events of the
--   stream to calls of the query cache. It registers its handlers on the client of WebSocket.
--   Bridge/Debounce has the steps: messages, local changes, and timers that fire.
-- - FromDb: frontend/src/lib/xray/stream-defaults.ts and inbound-from-db.ts, a stored inbound with its
--   defaults. What a schema of zod makes of a value is an argument.
-- - PanelVersion: frontend/src/lib/panel-version.ts.
-- - LinkParser, with its children Stream, Base, Vmess and Ss:
--   frontend/src/lib/xray/outbound-link-parser.ts. parse_outbound_link tries the six parsers; each
--   is the function of the same name.
-- - LinkGen, with its children Query, Vmess and Urls: frontend/src/lib/xray/inbound-link.ts. An
--   inbound becomes query parameters or JSON fields, those a link, and the links of clients, peers
--   and external proxies one text.
-- - OutboundForm, with its children Settings, Basic, Vless, Wireguard, Freedom, Dns and Stream:
--   frontend/src/lib/xray/outbound-form-adapter.ts. The parent has the two adapters, a child the
--   readers and writers of some protocols. The names of an object that a form does not know are
--   dropped, as in the code. OutboundForm/Imported joins it to LinkParser, and
--   OutboundForm/Allowed is what the form's schema accepts as settings, schemas/forms/outbound-form.ts.
-- - InboundForm: frontend/src/lib/xray/inbound-form-adapter.ts. Prune has the removal of empty
--   values, Stored the row of the database to form values, Sent the form values to the request.
-- - DbInbound: frontend/src/models/dbinbound.ts, the tests of the protocol, the address and the
--   cached statistics of clients. DbInbound/Cache has a specification of these without a map.
-- - Csrf: frontend/src/api/axios-init.ts. The interceptors are functions on the session; the replies
--   of the server are an argument. Csrf/Requests drives one request to its end, and a session of them.
-- - Headers: frontend/src/lib/xray/headers.ts. LinkGen reads host names with it.
-- - InboundTag and Capabilities: inbound-tag.ts and protocol-capabilities.ts of the same folder.
-- - Inbound: the records of frontend/src/schemas that links are made of, with the fields that the
--   generators read. The defaults and checks of zod are not modelled.
-- - Json and Platform: JavaScript values over a type of numbers, and the browser as a record, Web,
--   that every definition takes as an argument: the URL interface, JSON, percent and base64
--   encodings, numbers and the public key of a WireGuard secret (utils/index.ts). UrlLaws and
--   SchemeLaws say what a theorem relies on there. A call that may throw returns an option.
-- - Coerce: how the adapters turn a value of JSON into a text, a number or a switch. Its record
--   Runtime is Web with the text that a value is written as and the natural number that a number is.
-- - Shared: lists, texts, the properties of an object in the order of `Object.keys`, with the
--   names that every object inherits, and decimal numerals.
--
-- Texts are sequences of code points, and case is folded for ASCII letters only. A delay of the
-- reconnection is counted in units of 2 ^ -55 ms, in which the random jitter is exact. The listeners
-- of the client are numbers, and none calls the client back. Two definitions are on fuel: `decimal`,
-- whose fuel is the number itself, more than its digits, and `exchange` of Csrf/Requests, for which
-- two rounds are enough, since a request is sent again once at most. A VMess link is parsed and
-- generated, but the round trip is not stated. A request of the HTTP client is followed to its end
-- before the next starts, so token requests that overlap are not covered.
--
-- Not modelled: the user interface (pages, components, hooks), the default values of new inbounds
-- and outbounds, the query cache and the status that is shown, the helpers of frontend/src/utils but
-- the one named above, the dates and totals of a stored inbound, generated schemas, and the Go panel
-- behind the frontend.
pub mod Shared
pub mod Json
pub mod Platform
pub mod Coerce
pub mod WebSocket
pub mod Bridge
pub mod Headers
pub mod Inbound
pub mod LinkParser
pub mod LinkGen
pub mod InboundTag
pub mod Capabilities
pub mod OutboundForm
pub mod InboundForm
pub mod DbInbound
pub mod Csrf
pub mod PanelVersion
pub mod FromDb
