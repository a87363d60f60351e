-- ===== src/Web.antt =====
-- What React, the router and the browser are to the components: the elements that a component
-- returns, the effects that its handlers have, and the platform's functions.
pub mod View
pub mod Effect
pub mod Host
pub mod Storage
