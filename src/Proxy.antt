-- ===== src/Proxy.antt =====
-- The admission of auth_proxy.py, before a request is forwarded to the router. Its parts are the path
-- (Proxy/Path), the caller's key (Proxy/Keys), the route (Proxy/Routes), the bounded upstream section
-- (Proxy/Capacity), a tenant's published route (Proxy/Tenant), the settle of a reservation (Proxy/Settles),
-- the handler (Proxy/Admission) and its end (Proxy/Finish).
pub mod Path
pub mod Keys
pub mod Routes
pub mod Capacity
pub mod Tenant
pub mod Settles
pub mod Admission
pub mod Finish
