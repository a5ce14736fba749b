-- ===== src/Tests.antt =====
-- Each result of the library at concrete inputs: runs of the pages and of the
-- controller, and calls of the client.
mod Data
mod InstancesPage
mod NodesPage
mod DashboardPage
mod DetailPage
mod NetworkPage
mod ImagesPage
mod Gate
mod Calls
mod Cloud
mod CloudRuns
mod CloudCalls
mod DemoPages
mod ConsoleTab
mod Node
mod Agent
mod AgentStart
