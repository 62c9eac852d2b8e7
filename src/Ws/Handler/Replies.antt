-- ===== src/Ws/Handler/Replies.antt =====
-- wotpy/protocols/ws/handler.py: every request is answered once, under its ID.
use wot_py.Platform.{Platform}
use wot_py.Json.{Json}
use wot_py.Ws.Handler.{Handler}
